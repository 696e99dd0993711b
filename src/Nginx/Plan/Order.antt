-- ===== src/Nginx/Plan/Order.antt =====
-- The entries that `SyncUpstream` adds and removes, in the order in which it sends them.
use mlb_controller.Base.{
  Bool, true, false, not, ◌≡◌, refl, sym, ap, ◌∙◌, inl, inr, List, [], ◌∷◌, Option, none, some, Str,
  ◌==◌, str_eq, str_order, if◌then◌else◌, is_some, Bool-cases,
}
use mlb_controller.Base.GoMap
use mlb_controller.Base.GoMap.{GoMap}
use mlb_controller.Base.Sort
use mlb_controller.Domain.Model.{Backend}
use mlb_controller.Nginx.Address.{backend_key}
use mlb_controller.Nginx.Plan.{find_same, needs_update, update_backends, remove_backends, in_order}
use mlb_controller.Nginx.Plan.Laws.{update_for, update_backends-lookup}
use mlb_controller.Nginx.Plan.Totals.{IsKeyed, insert-IsKeyed}

abbrev Entry : Type 0
Entry = Str × Backend

abbrev value_of : Option Entry → Option Backend
value_of none = none
value_of (some e) = some e.1

lookup-find :
    (k : Str) (m : GoMap Backend) → GoMap.lookup k m ≡ value_of (Sort.find str_order (λ e. e.0) k m)
unfolding GoMap.lookup Sort.find
lookup-find k [] = refl
lookup-find k ((j, b) ∷ m) = elim (Bool-cases (j == k)) [
  | inl t ↦ rw t refl
  | inr f ↦ rw f (lookup-find k m)
]

value_of-none : (o : Option Entry) → value_of o ≡ none → o ≡ none
value_of-none none h = refl
value_of-none (some e) h = absurd cc

IsMap-IsDistinct : (m : GoMap Backend) → GoMap.IsMap m → Sort.IsDistinct str_order (λ e. e.0) m
IsMap-IsDistinct [] h = tt
IsMap-IsDistinct ((k, b) ∷ m) h =
    (value_of-none _ (sym (lookup-find k m) ∙ h.0), IsMap-IsDistinct m h.1)

IsDistinct-IsMap : (m : GoMap Backend) → Sort.IsDistinct str_order (λ e. e.0) m → GoMap.IsMap m
IsDistinct-IsMap [] h = tt
IsDistinct-IsMap ((k, b) ∷ m) h = (lookup-find k m ∙ ap value_of h.0, IsDistinct-IsMap m h.1)

-- Sorting the entries of a map leaves what each key stands for.
pub in_order-lookup :
    (k : Str) (m : GoMap Backend) → GoMap.IsMap m → GoMap.lookup k (in_order m) ≡ GoMap.lookup k m
unfolding in_order
in_order-lookup k m h =
    lookup-find k (Sort.sort str_order (λ e. e.0) m)
    ∙ ap value_of (Sort.find-sort str_order (λ e. e.0) k m (IsMap-IsDistinct m h))
    ∙ sym (lookup-find k m)

pub in_order-IsMap : (m : GoMap Backend) → GoMap.IsMap m → GoMap.IsMap (in_order m)
unfolding in_order
in_order-IsMap m h = IsDistinct-IsMap (Sort.sort str_order (λ e. e.0) m) (
    Sort.IsSorted-IsDistinct str_order (λ e. e.0) (Sort.sort str_order (λ e. e.0) m)
      (Sort.sort-IsSorted str_order (λ e. e.0) m (IsMap-IsDistinct m h)))

insert_sorted-IsKeyed :
    (e : Entry) (m : GoMap Backend)
    → e.0 ≡ backend_key e.1
    → IsKeyed m
    → IsKeyed (Sort.insert_sorted str_order (λ x. x.0) e m)
unfolding Sort.insert_sorted
insert_sorted-IsKeyed e [] k h = (k, tt)
insert_sorted-IsKeyed e (x ∷ m) k h = elim (Bool-cases (str_order.lt e.0 x.0)) [
  | inl t ↦ rw t (k, h)
  | inr f ↦ rw f (h.0, insert_sorted-IsKeyed e m k h.1)
]

pub in_order-IsKeyed : (m : GoMap Backend) → IsKeyed m → IsKeyed (in_order m)
unfolding in_order Sort.sort
in_order-IsKeyed [] h = tt
in_order-IsKeyed (e ∷ m) h = insert_sorted-IsKeyed e _ h.0 (in_order-IsKeyed m h.1)

pub update_backends-IsKeyed :
    (current : List Backend) (m : GoMap Backend) → IsKeyed m → IsKeyed (update_backends current m)
unfolding update_backends
update_backends-IsKeyed current [] h = tt
update_backends-IsKeyed current ((key, db) ∷ m) h =
    elim (Bool-cases (needs_update db (find_same db current))) [
      | inl t ↦ rw t (h.0, update_backends-IsKeyed current m h.1)
      | inr f ↦ rw f (update_backends-IsKeyed current m h.1)
    ]

pub update_backends-IsMap :
    (current : List Backend) (m : GoMap Backend)
    → GoMap.IsMap m
    → GoMap.IsMap (update_backends current m)
unfolding update_backends
update_backends-IsMap current [] h = tt
update_backends-IsMap current ((key, db) ∷ m) h =
    elim (Bool-cases (needs_update db (find_same db current))) [
      | inl t ↦ rw t (
        update_backends-lookup key current m h.1 ∙ ap (update_for current) h.0,
        update_backends-IsMap current m h.1,
      )
      | inr f ↦ rw f (update_backends-IsMap current m h.1)
    ]

pub remove_backends-IsKeyed :
    (desired : GoMap Backend) (cbs : List Backend) (m : GoMap Backend)
    → IsKeyed m
    → IsKeyed (remove_backends desired cbs m)
unfolding remove_backends
remove_backends-IsKeyed desired [] m h = h
remove_backends-IsKeyed desired (cb ∷ cbs) m h =
    remove_backends-IsKeyed desired cbs _ (go (is_some (GoMap.lookup (backend_key cb) desired)))
  where
    go : (b : Bool) → IsKeyed (if not b then GoMap.insert (backend_key cb) cb m else m)
    go true = h
    go false = insert-IsKeyed (backend_key cb) cb m refl h

pub remove_backends-IsMap :
    (desired : GoMap Backend) (cbs : List Backend) (m : GoMap Backend)
    → GoMap.IsMap m
    → GoMap.IsMap (remove_backends desired cbs m)
unfolding remove_backends
remove_backends-IsMap desired [] m h = h
remove_backends-IsMap desired (cb ∷ cbs) m h =
    remove_backends-IsMap desired cbs _ (go (is_some (GoMap.lookup (backend_key cb) desired)))
  where
    go : (b : Bool) → GoMap.IsMap (if not b then GoMap.insert (backend_key cb) cb m else m)
    go true = h
    go false = GoMap.insert-IsMap (backend_key cb) cb m h
