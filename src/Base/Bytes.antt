-- ===== src/Base/Bytes.antt =====
-- Go's strings as lists of bytes, with `==` and `<` on them.
use Prim.Native.Nat.{ℕ}
use Prim.Native.Char.{code}
use Prim.Native.String.{String}
use mathlib.Core.Path.{◌≡◌, refl}
use mathlib.Core.Logic.{◌↔◌}
use mathlib.Core.Bool.{Bool, true, false, ◌&&◌, ◌||◌}
use mathlib.Core.List.{List, [], ◌∷◌}
use native.Mathlib.Omega.{arith}
use mlb_controller.Base.Tests.{ltb, nat_beq, Eq}

abbrev pub Str : Type 0
Str = List ℕ

-- The bytes of a literal, which are ASCII in this program.
abbrev pub codes : String → Str
codes String.[] = []
codes (String.◌∷◌ c s) = code c ∷ codes s

unfoldable pub str_beq : Str → Str → Bool
str_beq [] [] = true
str_beq (a ∷ s) (b ∷ t) = nat_beq a b && str_beq s t
str_beq _ _ = false

pub str_beq_iff : (s t : Str) → (str_beq s t ≡ true) ↔ (s ≡ t)
unfolding str_beq
str_beq_iff [] [] = ground arith
str_beq_iff [] (b ∷ t) = ground arith
str_beq_iff (a ∷ s) [] = ground arith
str_beq_iff (a ∷ s) (b ∷ t) = ground (arith, str_beq_iff s t)

instance abbrev pub str_eq : Eq Str
str_eq = record { beq = str_beq; beq_iff = str_beq_iff }

-- `s < t`: bytewise, a proper prefix comes first.
unfoldable pub str_ltb : Str → Str → Bool
str_ltb [] [] = false
str_ltb [] (b ∷ t) = true
str_ltb (a ∷ s) [] = false
str_ltb (a ∷ s) (b ∷ t) = ltb a b || (nat_beq a b && str_ltb s t)

pub str_ltb_irrefl : (s : Str) → str_ltb s s ≡ false
unfolding str_ltb
str_ltb_irrefl [] = refl
str_ltb_irrefl (a ∷ s) = ground (arith, str_ltb_irrefl s)

pub str_ltb_trans : (s t u : Str) → str_ltb s t ≡ true → str_ltb t u ≡ true → str_ltb s u ≡ true
unfolding str_ltb
str_ltb_trans [] [] u h k = ground arith
str_ltb_trans [] (b ∷ t) [] h k = ground arith
str_ltb_trans [] (b ∷ t) (c ∷ u) h k = refl
str_ltb_trans (a ∷ s) [] u h k = ground arith
str_ltb_trans (a ∷ s) (b ∷ t) [] h k = ground arith
str_ltb_trans (a ∷ s) (b ∷ t) (c ∷ u) h k = ground (arith, str_ltb_trans s t u)

pub str_ltb_total : (s t : Str) → str_ltb s t ≡ false → str_ltb t s ≡ false → s ≡ t
unfolding str_ltb
str_ltb_total [] [] h k = refl
str_ltb_total [] (b ∷ t) h k = ground arith
str_ltb_total (a ∷ s) [] h k = ground arith
str_ltb_total (a ∷ s) (b ∷ t) h k = ground (arith, str_ltb_total s t)
