-- ===== src/Util/IpReplacement/Mixing.antt =====
-- What `replaceInNet` computes on bytes.
use Prim.Native.Nat.{bit_and, bit_or}
use mathlib.Core.Path.{ap₂}
use mlb_controller.Base.{
  ℕ, zero, suc, ◌+◌, ◌-◌, ◌*◌, ◌/◌, ◌%◌, ◌^◌, ◌<◌, ◌≡◌, refl, ◌∙◌, sym, Bool, true, false, List, [],
  ◌∷◌, ◌==◌, nat_eq, nat_beq_iff, leb, if◌then◌else◌, length, arith, All, inl, inr, Bool-cases,
}
use mlb_controller.Net.Network.{cidr_mask}
use mlb_controller.Util.IpReplacement.{replace_bytes}

-- Whether a test accepts each number below a bound.
holds_below : (bound : ℕ) → (ℕ → Bool) → Bool
holds_below zero test = true
holds_below (suc k) test = if test k then holds_below k test else false

-- A bound of which the test is run in full.
abbrev Passes : ℕ → (ℕ → Bool) → Type 0
Passes bound test = holds_below bound test ≡ true

holds_below_lem : (bound k : ℕ) (test : ℕ → Bool) → k < bound → Passes bound test → test k ≡ true
unfolding holds_below
holds_below_lem zero k test small run = absurd (omega (arith, small))
holds_below_lem (suc b) k test small run = ground (holds_below_lem b k test, small, run, arith)

-- The mask of a byte whose first `k` bits belong to the network.
abbrev byte_mask : ℕ → ℕ
byte_mask k = if leb 8 k then 255 else 255 - 255 / 2 ^ k

high_table :
    holds_below 9
      (λ k. holds_below 256 (λ b. bit_and b (byte_mask k) == b / 2 ^ (8 - k) * 2 ^ (8 - k)))
    ≡ true
unfolding holds_below
high_table = refl

low_table :
    holds_below 9 (λ k. holds_below 256 (λ b. bit_and b (255 - byte_mask k) == b % 2 ^ (8 - k)))
    ≡ true
unfolding holds_below
low_table = refl

join_table :
    holds_below 9
      (λ k. holds_below 256 (λ x. bit_or (x / 2 ^ (8 - k) * 2 ^ (8 - k)) (x % 2 ^ (8 - k)) == x))
    ≡ true
unfolding holds_below
join_table = refl

-- The high bits of `d` and the low bits of `s` can be told apart in their sum.
sum_parts :
    (k d s : ℕ)
    → k < 9
    → d < 256
    → s < 256
    → ((d / 2 ^ (8 - k) * 2 ^ (8 - k) + s % 2 ^ (8 - k)) / 2 ^ (8 - k) * 2 ^ (8 - k)
        ≡ d / 2 ^ (8 - k) * 2 ^ (8 - k))
      × ((d / 2 ^ (8 - k) * 2 ^ (8 - k) + s % 2 ^ (8 - k)) % 2 ^ (8 - k) ≡ s % 2 ^ (8 - k))
      × (d / 2 ^ (8 - k) * 2 ^ (8 - k) + s % 2 ^ (8 - k) < 256)
sum_parts zero d s h hd hs = omega arith
sum_parts (suc zero) d s h hd hs = omega arith
sum_parts (suc (suc zero)) d s h hd hs = omega arith
sum_parts (suc (suc (suc zero))) d s h hd hs = omega arith
sum_parts (suc (suc (suc (suc zero)))) d s h hd hs = omega arith
sum_parts (suc (suc (suc (suc (suc zero))))) d s h hd hs = omega arith
sum_parts (suc (suc (suc (suc (suc (suc zero)))))) d s h hd hs = omega arith
sum_parts (suc (suc (suc (suc (suc (suc (suc zero))))))) d s h hd hs = omega arith
sum_parts (suc (suc (suc (suc (suc (suc (suc (suc zero)))))))) d s h hd hs = omega arith
sum_parts (suc (suc (suc (suc (suc (suc (suc (suc (suc k))))))))) d s h hd hs = absurd (omega arith)

-- A byte that takes its first `k` bits from `d` and the others from `s`.
pub mix_byte : ℕ → ℕ → ℕ → ℕ
mix_byte k d s = d / 2 ^ (8 - k) * 2 ^ (8 - k) + s % 2 ^ (8 - k)

byte_lem :
    (k d s : ℕ)
    → k < 9
    → d < 256
    → s < 256
    → bit_or (bit_and d (byte_mask k)) (bit_and s (255 - byte_mask k)) ≡ mix_byte k d s
unfolding mix_byte
byte_lem k d s h hd hs =
    let high : bit_and d (byte_mask k) ≡ d / 2 ^ (8 - k) * 2 ^ (8 - k) =
      (nat_beq_iff _ _).0 (holds_below_lem 256 d _ hd (holds_below_lem 9 k _ h high_table)) in
    let low : bit_and s (255 - byte_mask k) ≡ s % 2 ^ (8 - k) =
      (nat_beq_iff _ _).0 (holds_below_lem 256 s _ hs (holds_below_lem 9 k _ h low_table)) in
    let x : ℕ = d / 2 ^ (8 - k) * 2 ^ (8 - k) + s % 2 ^ (8 - k) in
    let p = sum_parts k d s h hd hs in
    let joined : bit_or (x / 2 ^ (8 - k) * 2 ^ (8 - k)) (x % 2 ^ (8 - k)) ≡ x =
      (nat_beq_iff _ _).0 (holds_below_lem 256 x _ p.2 (holds_below_lem 9 k _ h join_table)) in
    ap₂ bit_or high low ∙ sym (ap₂ bit_or p.0 p.1) ∙ joined

-- The specification: the first `n` bits of `dst`, and the bits of `ip` behind them.
unfoldable pub mix : ℕ → List ℕ → List ℕ → List ℕ
unfolding mix_byte
mix n [] ss = []
mix n (d ∷ ds) [] = []
mix n (d ∷ ds) (s ∷ ss) = (if leb 8 n then d else mix_byte n d s) ∷ mix (n - 8) ds ss

abbrev pub AreBytes : List ℕ → Type 0
AreBytes = All (λ b. b < 256)

whole_byte : (d s : ℕ) → d < 256 → s < 256 → bit_or (bit_and d 255) (bit_and s 0) ≡ d
whole_byte d s hd hs = byte_lem 8 d s (omega arith) hd hs ∙ unfold mix_byte in omega arith

-- With a mask of `n` bits, the result has the network bits of the target and the host bits of the
-- address, whatever `n` is and for addresses of any equal lengths.
pub replace_bytes-eq-mix :
    (n : ℕ) (ip dst : List ℕ)
    → AreBytes ip
    → AreBytes dst
    → length ip ≡ length dst
    → replace_bytes ip dst (cidr_mask n (length ip)) ≡ mix n dst ip
unfolding replace_bytes cidr_mask mix
replace_bytes-eq-mix n [] [] hi hd e = refl
replace_bytes-eq-mix n [] (d ∷ ds) hi hd e = absurd (omega arith)
replace_bytes-eq-mix n (s ∷ ss) [] hi hd e = absurd (omega arith)
replace_bytes-eq-mix n (s ∷ ss) (d ∷ ds) hi hd e =
    let ih = replace_bytes-eq-mix (n - 8) ss ds hi.1 hd.1 (omega arith) in
    elim (Bool-cases (leb 8 n)) [
      | inl t ↦ rw t (ap₂ (λ b bs. b ∷ bs) (whole_byte d s hd.0 hi.0) ih)
      | inr f ↦ rw f (ap₂ (λ b bs. b ∷ bs) (part n d s f hd.0 hi.0) ih)
    ]
  where
    part :
        (n d s : ℕ)
        → leb 8 n ≡ false
        → d < 256
        → s < 256
        → bit_or (bit_and d (255 - 255 / 2 ^ n)) (bit_and s (255 - (255 - 255 / 2 ^ n)))
          ≡ mix_byte n d s
    part n d s f hd hs = (rw f at (byte_lem n d s (ground arith) hd hs))
