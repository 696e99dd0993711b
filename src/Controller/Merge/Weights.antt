-- ===== src/Controller/Merge/Weights.antt =====
-- Weights of the backends of internal/domain/model/backend.go at an address, and their sums.
use mlb_controller.Base.{
  ◌≡◌, refl, sym, ap, ◌∙◌, List, [], ◌∷◌, ◌++◌, Option, none, some, ℤ, str_eq, add64, add64_comm,
  add64_assoc, if◌then◌else◌,
}
use mlb_controller.Domain.Model.{Backend}
use mlb_controller.Controller.Merge.Key.{Address, address, address_beq, address_eq}

-- Weights of one address, where there may be none.
abbrev pub plus : Option ℤ → Option ℤ → Option ℤ
plus none w = w
plus (some v) none = some v
plus (some v) (some w) = some (add64 v w)

pub plus_comm : (v w : Option ℤ) → plus v w ≡ plus w v
plus_comm none none = refl
plus_comm none (some w) = refl
plus_comm (some v) none = refl
plus_comm (some v) (some w) = ap some (add64_comm v w)

pub plus_assoc : (u v w : Option ℤ) → plus (plus u v) w ≡ plus u (plus v w)
plus_assoc none v w = refl
plus_assoc (some u) none w = refl
plus_assoc (some u) (some v) none = refl
plus_assoc (some u) (some v) (some w) = ap some (add64_assoc u v w)

-- The specification: the wrapped total of the weights at `k`, none if no backend has the address.
unfoldable pub total : Address → List Backend → Option ℤ
total k [] = none
total k (be ∷ bes) =
    plus (if address_beq (address be) k then some be.weight else none) (total k bes)

pub total-append :
    (k : Address) (a b : List Backend) → total k (a ++ b) ≡ plus (total k a) (total k b)
unfolding total
total-append k [] b = refl
total-append k (be ∷ a) b =
    ap (plus (if address_beq (address be) k then some be.weight else none)) (total-append k a b)
    ∙ sym (
        plus_assoc (if address_beq (address be) k then some be.weight else none) (total k a)
          (total k b))
