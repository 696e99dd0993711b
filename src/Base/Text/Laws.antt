-- ===== src/Base/Text/Laws.antt =====
-- Laws of the text functions that the components share.
use mathlib.Core.Path.{◌≡◌, refl, ap}
use mathlib.Core.Bool.{true, false, ◌||◌}
use mathlib.Core.List.{[], ◌∷◌, ◌++◌}
use Prim.Native.Nat.{ℕ}
use native.Mathlib.Omega.{arith}
use mlb_controller.Base.Tests.{nat_eq}
use mlb_controller.Base.Bytes.{Str}
use mlb_controller.Base.Text.{contains_byte}

tail_eq : {a b : ℕ} {s t : Str} → ◌≡◌ {A = Str} (a ∷ s) (b ∷ t) → s ≡ t
tail_eq h = cc

contains_byte-middle : (b : ℕ) (s t : Str) → contains_byte b (s ++ (b ∷ t)) ≡ true
unfolding contains_byte
contains_byte-middle b [] t = ground arith
contains_byte-middle b (c ∷ s) t = ground (arith, contains_byte-middle b s t)

pub contains_byte-append :
    (b : ℕ) (s t : Str) → contains_byte b (s ++ t) ≡ contains_byte b s || contains_byte b t
unfolding contains_byte
contains_byte-append b [] t = refl
contains_byte-append b (c ∷ s) t = ground (arith, contains_byte-append b s t)

-- Two texts joined by a separator that their second parts lack have equal parts.
pub separator-injective :
    (b : ℕ) (s t u v : Str)
    → contains_byte b u ≡ false
    → contains_byte b v ≡ false
    → s ++ (b ∷ u) ≡ t ++ (b ∷ v)
    → (s ≡ t) × (u ≡ v)
unfolding contains_byte
separator-injective b [] [] u v hu hv h = (refl, ground arith)
separator-injective b [] (d ∷ t) u v hu hv h =
    absurd (ground (arith, contains_byte-middle b t v, ap (contains_byte b) (tail_eq h)))
separator-injective b (c ∷ s) [] u v hu hv h =
    absurd (ground (arith, contains_byte-middle b s u, ap (contains_byte b) (tail_eq h)))
separator-injective b (c ∷ s) (d ∷ t) u v hu hv h =
    let ih = separator-injective b s t u v hu hv (tail_eq h) in (ground (arith, ih), ih.1)
