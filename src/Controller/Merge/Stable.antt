-- ===== src/Controller/Merge/Stable.antt =====
-- `mergeBackends` does not depend on the order in which Go walks its map, and merging what is merged
-- changes nothing.
use mathlib.Core.Logic.{∥∥₁_elim}
use mathlib.Core.List.{Perm}
use mlb_controller.Base.{
  ◌≡◌, refl, sym, ap, ◌∙◌, List, [], ◌∷◌, ◌++◌, Option, none, some, ℤ, inl, inr, Bool-cases,
}
use mlb_controller.Base.Sort
use mlb_controller.Base.Sort.Canonical
use mlb_controller.Domain.Model.{Backend}
use mlb_controller.Controller.Merge.{merge_backends, sort_backends, merged_values}
use mlb_controller.Controller.Merge.Key.{
  Address, address, address_beq, address_beq_iff, address_eq, address_order,
}
use mlb_controller.Controller.Merge.Weights.{total, total-append, plus, plus_comm}
use mlb_controller.Controller.Merge.Totals.{at_address, merged_values-IsDistinct}
use mlb_controller.Controller.Merge.Laws.{
  find_backend, find-merge_backends, merge_backends-IsSorted,
}

Backends-set : IsSet (List Backend)
Backends-set = hlevel

-- However Go orders the values of the map, sorting them gives the same slice.
pub merge_backends-walk :
    (a b res : List Backend) → Perm (merged_values a b) res → sort_backends res ≡ merge_backends a b
unfolding merge_backends sort_backends
merge_backends-walk a b res p =
    ∥∥₁_elim p (Backends-set (sort_backends res) (merge_backends a b))
      λ q. sym (Canonical.sort-Permᴰ address_order address q (merged_values-IsDistinct a b))

weight : Option Backend → Option ℤ
weight none = none
weight (some be) = some be.weight

weight-at_address : (k : Address) (w : Option ℤ) → weight (at_address k w) ≡ w
unfolding weight
weight-at_address k none = refl
weight-at_address (i, p) (some w) = refl

total-IsDistinct :
    (k : Address) (xs : List Backend)
    → Sort.IsDistinct address_order address xs
    → total k xs ≡ weight (find_backend k xs)
unfolding total Sort.find weight
total-IsDistinct k [] d = refl
total-IsDistinct k (x ∷ xs) d = elim (Bool-cases (address_beq (address x) k)) [
  | inl t ↦
      let q : address x ≡ k = (address_beq_iff (address x) k).0 t in
      let r : total k xs ≡ none =
        total-IsDistinct k xs d.1 ∙ ap (λ j. weight (find_backend j xs)) (sym q) ∙ ap weight d.0 in
      rw (t, r) refl
  | inr f ↦ rw f (total-IsDistinct k xs d.1)
]

total_nil : (k : Address) (xs : List Backend) → plus (total k xs) (total k []) ≡ total k xs
unfolding total
total_nil k xs = plus_comm (total k xs) none

-- Merging what `mergeBackends` returned with nothing returns it unchanged.
pub merge_backends_idem :
    (a b : List Backend) → merge_backends (merge_backends a b) [] ≡ merge_backends a b
merge_backends_idem a b =
    Canonical.IsSorted-ext address_order address (merge_backends (merge_backends a b) [])
      (merge_backends a b) (merge_backends-IsSorted (merge_backends a b) [])
      (merge_backends-IsSorted a b)
      λ k.
        find-merge_backends k (merge_backends a b) []
        ∙ ap (at_address k) (
            total-append k (merge_backends a b) []
            ∙ total_nil k (merge_backends a b)
            ∙ total-IsDistinct k (merge_backends a b) (
                Sort.IsSorted-IsDistinct address_order address (merge_backends a b)
                  (merge_backends-IsSorted a b))
            ∙ ap weight (find-merge_backends k a b)
            ∙ weight-at_address k (total k (a ++ b)))
        ∙ sym (find-merge_backends k a b)

-- The total of the weights at an address is that of both inputs.
pub total-merge_backends :
    (k : Address) (a b : List Backend) → total k (merge_backends a b) ≡ plus (total k a) (total k b)
total-merge_backends k a b =
    total-IsDistinct k (merge_backends a b) (
      Sort.IsSorted-IsDistinct address_order address (merge_backends a b)
        (merge_backends-IsSorted a b))
    ∙ ap weight (find-merge_backends k a b)
    ∙ weight-at_address k (total k (a ++ b))
    ∙ total-append k a b
