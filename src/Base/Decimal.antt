-- ===== src/Base/Decimal.antt =====
-- Decimal numbers: `%d` of `fmt.Sprintf`, `strconv.Itoa`, `strconv.Atoi` and `strconv.ParseInt`.
pub mod Laws
use mathlib.Core.Bool.{Bool, true, false, ◌&&◌}
use mathlib.Core.Option.{Option, none, some}
use mathlib.Core.List.{List, [], ◌∷◌, ◌++◌}
use Prim.Native.Nat.{ℕ, zero, suc, ◌+◌, ◌-◌, ◌*◌, ◌/◌, ◌%◌, ◌^◌}
use mlb_controller.Base.Tests.{◌==◌, nat_eq, if◌then◌else◌, ltb, leb}
use mlb_controller.Base.Int.{ℤ, pos, negsuc}
use mlb_controller.Base.Bytes.{Str}

-- The digits of `n`, of which there are at most as many as the fuel.
unfoldable pub digits : ℕ → ℕ → Str
digits zero n = []
digits (suc f) n = elim (ltb n 10) [
  | true ↦ (48 + n) ∷ []
  | false ↦ digits f (n / 10) ++ (48 + n % 10) ∷ []
]

-- The fuel `n + 1` is enough: `value-digits` in `Laws`.
unfoldable pub itoa : ℤ → Str
unfolding digits
itoa (pos n) = digits (suc n) n
itoa (negsuc n) = b'-' ∷ digits (suc (suc n)) (suc n)

unfoldable pub is_digit : ℕ → Bool
is_digit c = leb 48 c && leb c 57

-- The number that a text of digits writes, after what `acc` has read.
unfoldable pub value : ℕ → Str → Option ℕ
unfolding is_digit
value acc [] = some acc
value acc (c ∷ s) = let rest = value (acc * 10 + (c - 48)) s in if is_digit c then rest else none

unsigned : Str → Option ℕ
unfolding value
unsigned [] = none
unsigned (c ∷ s) = value 0 (c ∷ s)

-- The range of a signed integer of `suc bits` bits.
non_negative : ℕ → Option ℕ → Option ℤ
non_negative bits none = none
non_negative bits (some n) = if ltb n (2 ^ bits) then some (pos n) else none

negative : ℕ → Option ℕ → Option ℤ
negative bits none = none
negative bits (some zero) = some (pos 0)
negative bits (some (suc n)) = if ltb n (2 ^ bits) then some (negsuc n) else none

signed : ℕ → Str → Option ℤ
unfolding unsigned non_negative negative
signed bits [] = none
signed bits (c ∷ s) =
    if c == b'-'
    then negative bits (unsigned s)
    else if c == b'+'
    then non_negative bits (unsigned s)
    else non_negative bits (unsigned (c ∷ s))

-- strconv.Atoi
unfoldable pub atoi : Str → Option ℤ
unfolding signed
atoi s = signed 63 s

-- strconv.ParseInt(s, 10, 32)
unfoldable pub parse_int32 : Str → Option ℤ
unfolding signed
parse_int32 s = signed 31 s
