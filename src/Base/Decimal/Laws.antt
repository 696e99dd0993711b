-- ===== src/Base/Decimal/Laws.antt =====
-- What is printed reads back, so a printed number determines the number.
use mathlib.Core.Path.{◌≡◌, refl, sym, ap}
use mathlib.Core.Bool.{false}
use mathlib.Core.Option.{Option, none, some}
use mathlib.Core.List.{[], ◌∷◌, ◌++◌}
use Prim.Native.Nat.{ℕ, zero, suc, ◌+◌, ◌-◌, ◌*◌, ◌/◌, ◌%◌, ◌<◌}
use native.Mathlib.Omega.{arith}
use mlb_controller.Base.Tests.{◌==◌, nat_eq}
use mlb_controller.Base.Int.{ℤ, pos, negsuc}
use mlb_controller.Base.Bytes.{Str}
use mathlib.Core.Logic.{◌≢◌}
use mlb_controller.Base.Text.{contains_byte}
use mlb_controller.Base.Text.Laws.{contains_byte-append}
use mlb_controller.Base.Decimal.{digits, itoa, value, is_digit}

abbrev and_then : Option ℕ → (ℕ → Option ℕ) → Option ℕ
and_then none f = none
and_then (some n) f = f n

value-append : (a : ℕ) (s t : Str) → value a (s ++ t) ≡ and_then (value a s) (λ b. value b t)
unfolding value
value-append a [] t = refl
value-append a (c ∷ s) t = ground (arith, value-append (a * 10 + (c - 48)) s t)

-- The printed digits write the number, given enough fuel.
pub value-digits : (f n : ℕ) → n < f → value 0 (digits f n) ≡ some n
unfolding digits value
value-digits zero n h = elim h [ ]
value-digits (suc f) n h =
    ground (arith, value-append 0 (digits f (n / 10)) ((48 + n % 10) ∷ []), value-digits f (n / 10))

-- A byte that is no digit stands in no printed number, but for the sign.
digits-contains_byte : (b f n : ℕ) → is_digit b ≡ false → contains_byte b (digits f n) ≡ false
unfolding digits contains_byte is_digit
digits-contains_byte b zero n h = refl
digits-contains_byte b (suc f) n h = ground (
  arith,
  digits-contains_byte b f (n / 10) h,
  contains_byte-append b (digits f (n / 10)) ((48 + n % 10) ∷ []),
)

pub itoa-contains_byte :
    (b : ℕ) (z : ℤ) → is_digit b ≡ false → (b == b'-') ≡ false → contains_byte b (itoa z) ≡ false
unfolding itoa contains_byte
itoa-contains_byte b (pos n) h k = digits-contains_byte b (suc n) n h
itoa-contains_byte b (negsuc n) h k = ground (arith, digits-contains_byte b (suc (suc n)) (suc n) h)

digits-injective : (m n : ℕ) → digits (suc m) m ≡ digits (suc n) n → m ≡ n
digits-injective m n h =
    ground (arith, value-digits (suc m) m, value-digits (suc n) n, ap (value 0) h)

not_minus : (n : ℕ) (s : Str) → digits (suc n) n ≢ b'-' ∷ s
unfolding value is_digit
not_minus n s h = ground (arith, value-digits (suc n) n, ap (value 0) h)

tail_eq : {a b : ℕ} {s t : Str} → ◌≡◌ {A = Str} (a ∷ s) (b ∷ t) → s ≡ t
tail_eq h = cc

-- The printed text determines the number.
pub itoa-injective : (y z : ℤ) → itoa y ≡ itoa z → y ≡ z
unfolding itoa
itoa-injective (pos m) (pos n) h = ap pos (digits-injective m n h)
itoa-injective (pos m) (negsuc n) h = absurd (not_minus m (digits (suc (suc n)) (suc n)) h)
itoa-injective (negsuc m) (pos n) h = absurd (not_minus n (digits (suc (suc m)) (suc m)) (sym h))
itoa-injective (negsuc m) (negsuc n) h =
    let e : suc m ≡ suc n = digits-injective (suc m) (suc n) (tail_eq h) in ground arith
