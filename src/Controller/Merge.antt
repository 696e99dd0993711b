-- ===== src/Controller/Merge.antt =====
-- `mergeBackends` of internal/controller/controller.go.
pub mod Key
pub mod Weights
pub mod Totals
pub mod Laws
pub mod Stable
use mlb_controller.Base.{List, [], ◌∷◌, Option, none, some, add64}
use mlb_controller.Base.GoMap
use mlb_controller.Base.GoMap.{GoMap}
use mlb_controller.Base.Sort
use mlb_controller.Domain.Model.{Backend}
use Key.{Address, address, address_eq, address_order, address_text}

-- A backend whose address is known adds its weight to the one that is there.
unfoldable pub accumulate : Option Backend → Backend → Backend
accumulate (some existing) be = record existing { weight = add64 existing.weight be.weight }
accumulate none be = be

-- One round of either loop.
unfoldable pub add_backend : GoMap Backend → Backend → GoMap Backend
unfolding accumulate
add_backend m be =
    let key = address_text (address be) in GoMap.insert key (accumulate (GoMap.lookup key m) be) m

unfoldable pub add_backends : GoMap Backend → List Backend → GoMap Backend
add_backends m [] = m
add_backends m (be ∷ bes) = add_backends (add_backend m be) bes

-- `sort.Slice` with the comparison of `mergeBackends`.
unfoldable pub sort_backends : List Backend → List Backend
sort_backends = Sort.sort address_order address

-- The values of the map, in the order of a walk over it.
unfoldable pub merged_values : List Backend → List Backend → List Backend
unfolding add_backends add_backend
merged_values a b = GoMap.values (add_backends (add_backends [] a) b)

unfoldable pub merge_backends : List Backend → List Backend → List Backend
unfolding sort_backends merged_values
merge_backends a b = sort_backends (merged_values a b)
