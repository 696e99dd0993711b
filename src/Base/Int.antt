-- ===== src/Base/Int.antt =====
-- Go's signed integers: ℤ over the native numbers, and the wrap-around of a 64-bit `int`.
use Prim.Native.Nat.{ℕ, suc, ◌+◌, ◌-◌, ◌%◌, ◌^◌, ◌<◌}
use mathlib.Core.Path.{◌≡◌, refl, ap}
use mathlib.Core.Logic.{◌↔◌}
use mathlib.Core.Bool.{Bool, true}
use native.Mathlib.Omega.{arith}
use mlb_controller.Base.Tests.{ltb, leb, nat_beq, Eq, if◌then◌else◌}

-- `negsuc n` is -(n + 1).
pub data ℤ : Type 0 where
  pos : ℕ → ℤ
  negsuc : ℕ → ℤ

abbrev pub pos_part : ℤ → ℕ
pos_part (pos n) = n
pos_part (negsuc n) = 0

abbrev pub neg_part : ℤ → ℕ
neg_part (pos n) = 0
neg_part (negsuc n) = suc n

abbrev pub ltb_ℤ : ℤ → ℤ → Bool
ltb_ℤ a b = ltb (pos_part a + neg_part b) (pos_part b + neg_part a)

abbrev pub leb_ℤ : ℤ → ℤ → Bool
leb_ℤ a b = leb (pos_part a + neg_part b) (pos_part b + neg_part a)

abbrev pub beq_ℤ : ℤ → ℤ → Bool
beq_ℤ a b = nat_beq (pos_part a + neg_part b) (pos_part b + neg_part a)

pub beq_ℤ_iff : (a b : ℤ) → (beq_ℤ a b ≡ true) ↔ (a ≡ b)
beq_ℤ_iff a b = ground arith

instance abbrev pub int_eq : Eq ℤ
int_eq = record { beq = beq_ℤ; beq_iff = beq_ℤ_iff }

-- A 64-bit `int` is its two's complement pattern, below 2 ^ 64.
to_bits64 : ℤ → ℕ
to_bits64 (pos n) = n % 2 ^ 64
to_bits64 (negsuc n) = 2 ^ 64 - 1 - n % 2 ^ 64

of_bits64 : ℕ → ℤ
of_bits64 w = if ltb w (2 ^ 63) then pos w else negsuc (2 ^ 64 - 1 - w)

-- `a + b` on a 64-bit `int`.
unfoldable pub add64 : ℤ → ℤ → ℤ
unfolding to_bits64 of_bits64
add64 a b = of_bits64 ((to_bits64 a + to_bits64 b) % 2 ^ 64)

to_bits64-of_bits64 : (w : ℕ) → w < 2 ^ 64 → to_bits64 (of_bits64 w) ≡ w
unfolding to_bits64 of_bits64
to_bits64-of_bits64 w h = ground arith

to_bits64-add64 : (a b : ℤ) → to_bits64 (add64 a b) ≡ (to_bits64 a + to_bits64 b) % 2 ^ 64
unfolding add64
to_bits64-add64 a b = ground arith

add_mod_assoc : (x y z : ℕ) → ((x + y) % 2 ^ 64 + z) % 2 ^ 64 ≡ (x + (y + z) % 2 ^ 64) % 2 ^ 64
add_mod_assoc x y z = omega arith

pub add64_comm : (a b : ℤ) → add64 a b ≡ add64 b a
unfolding add64
add64_comm a b = ap (λ w. of_bits64 w) (omega arith)

add64_unfold : (a b : ℤ) → add64 a b ≡ of_bits64 ((to_bits64 a + to_bits64 b) % 2 ^ 64)
add64_unfold a b = unfold add64 in refl

pub add64_assoc : (a b c : ℤ) → add64 (add64 a b) c ≡ add64 a (add64 b c)
add64_assoc a b c =
    rw
      (
        add64_unfold (add64 a b) c,
        add64_unfold a (add64 b c),
        to_bits64-add64 a b,
        to_bits64-add64 b c,
      )
      (ap (λ w. of_bits64 w) (add_mod_assoc (to_bits64 a) (to_bits64 b) (to_bits64 c)))

-- Where the sum of two non-negative numbers fits, nothing wraps.
pub add64_pos : (m n : ℕ) → m + n < 2 ^ 63 → add64 (pos m) (pos n) ≡ pos (m + n)
unfolding add64
add64_pos m n h = ground arith
