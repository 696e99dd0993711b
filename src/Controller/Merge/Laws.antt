-- ===== src/Controller/Merge/Laws.antt =====
-- `mergeBackends` returns one backend for each address, sorted, with the total of the weights, and
-- neither the order of the inputs nor the order in which Go walks the map shows in the result.
use mlb_controller.Base.{◌≡◌, sym, ap, ◌∙◌, List, ◌++◌, Option}
use mlb_controller.Base.Sort
use mlb_controller.Base.Sort.Canonical
use mlb_controller.Domain.Model.{Backend}
use mlb_controller.Controller.Merge.{merge_backends, merged_values}
use mlb_controller.Controller.Merge.Key.{Address, address, address_eq, address_order}
use mlb_controller.Controller.Merge.Weights.{total, total-append, plus_comm}
use mlb_controller.Controller.Merge.Totals.{
  at_address, merged_values-IsDistinct, find-merged_values,
}

abbrev pub find_backend : Address → List Backend → Option Backend
find_backend = Sort.find address_order address

-- A search of the merged slice for an address finds a backend exactly if one of the inputs has one
-- there, and its weight is the total, wrapped to 64 bits, of the weights that the inputs have there.
pub find-merge_backends :
    (k : Address) (a b : List Backend)
    → find_backend k (merge_backends a b) ≡ at_address k (total k (a ++ b))
unfolding merge_backends merged_values
find-merge_backends k a b =
    Sort.find-sort address_order address k (merged_values a b) (merged_values-IsDistinct a b)
    ∙ find-merged_values k a b

-- The merged slice is strictly sorted by IP and port, so no address occurs in it twice.
pub merge_backends-IsSorted :
    (a b : List Backend) → Sort.IsSorted address_order address (merge_backends a b)
unfolding merge_backends merged_values
merge_backends-IsSorted a b =
    Sort.sort-IsSorted address_order address (merged_values a b) (merged_values-IsDistinct a b)

merge_backends-ext :
    (a b c d : List Backend)
    → ((k : Address) → total k (a ++ b) ≡ total k (c ++ d))
    → merge_backends a b ≡ merge_backends c d
merge_backends-ext a b c d h =
    Canonical.IsSorted-ext address_order address (merge_backends a b) (merge_backends c d)
      (merge_backends-IsSorted a b) (merge_backends-IsSorted c d)
      λ k. find-merge_backends k a b ∙ ap (at_address k) (h k) ∙ sym (find-merge_backends k c d)

-- Two services that share an upstream merge to the same slice, whichever is synchronised first.
pub merge_backends_comm : (a b : List Backend) → merge_backends a b ≡ merge_backends b a
merge_backends_comm a b =
    merge_backends-ext a b b a
      λ k. total-append k a b ∙ plus_comm (total k a) (total k b) ∙ sym (total-append k b a)
