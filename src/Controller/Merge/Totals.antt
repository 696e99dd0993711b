-- ===== src/Controller/Merge/Totals.antt =====
-- What the map of `mergeBackends` holds for each address: the total of the weights.
use mlb_controller.Base.{
  Bool, true, false, ◌≡◌, refl, sym, ap, ◌∙◌, List, [], ◌∷◌, ◌++◌, Option, none, some, ℤ, ◌==◌,
  str_eq, if◌then◌else◌, arith, str_beq_iff, All, Str, Bool-cases, Option-cases, inl, inr,
}
use mlb_controller.Base.GoMap
use mlb_controller.Base.GoMap.{GoMap}
use mlb_controller.Base.Sort
use mlb_controller.Domain.Model.{Backend}
use mlb_controller.Controller.Merge.{merged_values, accumulate, add_backend, add_backends}
use mlb_controller.Controller.Merge.Key.{
  Address, address, address_beq, address_beq_iff, address_eq, address_order, address_text,
  address_text_beq, address_text-injective,
}
use mlb_controller.Controller.Merge.Weights.{plus, plus_comm, plus_assoc, total, total-append}

-- The backend at `k` with a given weight.
abbrev pub at_address : Address → Option ℤ → Option Backend
at_address k none = none
at_address (i, p) (some w) = some (record { ip = i; port = p; weight = w })

weight_of : Option Backend → Option ℤ
weight_of none = none
weight_of (some be) = some be.weight

-- Each entry of the map stands under the key of its own backend.
abbrev IsKeyed : GoMap Backend → Type 0
IsKeyed = All (λ e. e.0 ≡ address_text (address e.1))

insert-IsKeyed :
    (k : Str) (be : Backend) (m : GoMap Backend)
    → k ≡ address_text (address be)
    → IsKeyed m
    → IsKeyed (GoMap.insert k be m)
unfolding GoMap.insert
insert-IsKeyed k be [] e h = (e, tt)
insert-IsKeyed k be ((j, w) ∷ m) e h = elim (Bool-cases (j == k)) [
  | inl t ↦ rw t (e, h.1)
  | inr f ↦ rw f (h.0, insert-IsKeyed k be m e h.1)
]

lookup-IsKeyed :
    (k : Str) (m : GoMap Backend) (be : Backend)
    → IsKeyed m
    → GoMap.lookup k m ≡ some be
    → k ≡ address_text (address be)
unfolding GoMap.lookup
lookup-IsKeyed k [] be h e = cc
lookup-IsKeyed k ((j, w) ∷ m) be h e =
    ground (arith, h.0, str_beq_iff j k, lookup-IsKeyed k m be h.1)

accumulate-address :
    (m : GoMap Backend) (be : Backend) (o : Option Backend)
    → IsKeyed m
    → GoMap.lookup (address_text (address be)) m ≡ o
    → address_text (address be) ≡ address_text (address (accumulate o be))
unfolding accumulate
accumulate-address m be none h e = refl
accumulate-address m be (some old) h e = lookup-IsKeyed (address_text (address be)) m old h e

pub add_backend-IsKeyed :
    (be : Backend) (m : GoMap Backend) → IsKeyed m → IsKeyed (add_backend m be)
unfolding add_backend
add_backend-IsKeyed be m h =
    let key = address_text (address be) in
    insert-IsKeyed key (accumulate (GoMap.lookup key m) be) m
      (accumulate-address m be (GoMap.lookup key m) h refl) h

weight_of-accumulate :
    (o : Option Backend) (be : Backend)
    → weight_of (some (accumulate o be)) ≡ plus (weight_of o) (some be.weight)
unfolding accumulate weight_of
weight_of-accumulate none be = refl
weight_of-accumulate (some old) be = refl

at_test :
    (k : Address) (be : Backend) (m : GoMap Backend) (t : Bool)
    → (t ≡ true → address be ≡ k)
    → weight_of (
        if t
        then some (accumulate (GoMap.lookup (address_text (address be)) m) be)
        else GoMap.lookup (address_text k) m)
      ≡ plus (weight_of (GoMap.lookup (address_text k) m)) (if t then some be.weight else none)
at_test k be m true h =
    weight_of-accumulate (GoMap.lookup (address_text (address be)) m) be
    ∙ ap (λ j. plus (weight_of (GoMap.lookup (address_text j) m)) (some be.weight)) (h refl)
at_test k be m false h = sym (plus_comm (weight_of (GoMap.lookup (address_text k) m)) none)

-- Adding a backend adds its weight at its address and nowhere else.
lookup-add_backend :
    (k : Address) (be : Backend) (m : GoMap Backend)
    → weight_of (GoMap.lookup (address_text k) (add_backend m be))
      ≡ plus
          (weight_of (GoMap.lookup (address_text k) m))
          (if address_beq (address be) k then some be.weight else none)
lookup-add_backend k be m =
    let key = address_text (address be) in
    let stored = accumulate (GoMap.lookup key m) be in
    let found : GoMap.lookup (address_text k) (add_backend m be)
        ≡ (if address_beq (address be) k then some stored else GoMap.lookup (address_text k) m) =
      unfold add_backend in
      (GoMap.lookup-insert key (address_text k) stored m ∙ rw (address_text_beq (address be) k)) in
    ap weight_of found
    ∙ at_test k be m (address_beq (address be) k) (address_beq_iff (address be) k).0

add_backends-IsKeyed :
    (bes : List Backend) (m : GoMap Backend) → IsKeyed m → IsKeyed (add_backends m bes)
unfolding add_backends
add_backends-IsKeyed [] m h = h
add_backends-IsKeyed (be ∷ bes) m h =
    add_backends-IsKeyed bes (add_backend m be) (add_backend-IsKeyed be m h)

lookup-add_backends :
    (k : Address) (bes : List Backend) (m : GoMap Backend)
    → weight_of (GoMap.lookup (address_text k) (add_backends m bes))
      ≡ plus (weight_of (GoMap.lookup (address_text k) m)) (total k bes)
unfolding add_backends total
lookup-add_backends k [] m = sym (plus_comm (weight_of (GoMap.lookup (address_text k) m)) none)
lookup-add_backends k (be ∷ bes) m =
    lookup-add_backends k bes (add_backend m be)
    ∙ ap (λ w. plus w (total k bes)) (lookup-add_backend k be m)
    ∙ plus_assoc (weight_of (GoMap.lookup (address_text k) m))
        (if address_beq (address be) k then some be.weight else none) (total k bes)

add_backends-IsMap :
    (bes : List Backend) (m : GoMap Backend) → GoMap.IsMap m → GoMap.IsMap (add_backends m bes)
unfolding add_backends add_backend
add_backends-IsMap [] m h = h
add_backends-IsMap (be ∷ bes) m h =
    let key = address_text (address be) in
    add_backends-IsMap bes (add_backend m be)
      (GoMap.insert-IsMap key (accumulate (GoMap.lookup key m) be) m h)

-- Searching the values for an address is looking its key up.
find-values :
    (k : Address) (m : GoMap Backend)
    → IsKeyed m
    → Sort.find address_order address k (GoMap.values m) ≡ GoMap.lookup (address_text k) m
unfolding Sort.find GoMap.values GoMap.lookup
find-values k [] h = refl
find-values k ((j, w) ∷ m) h =
    ground (arith, h.0, address_text_beq (address w) k, find-values k m h.1)

values-IsDistinct :
    (m : GoMap Backend)
    → IsKeyed m
    → GoMap.IsMap m
    → Sort.IsDistinct address_order address (GoMap.values m)
unfolding GoMap.values
values-IsDistinct [] h u = tt
values-IsDistinct ((j, w) ∷ m) h u = (
  find-values (address w) m h.1 ∙ ap (λ s. GoMap.lookup s m) (sym h.0) ∙ u.0,
  values-IsDistinct m h.1 u.1,
)

lookup-at_address :
    (k : Address) (m : GoMap Backend)
    → IsKeyed m
    → GoMap.lookup (address_text k) m ≡ at_address k (weight_of (GoMap.lookup (address_text k) m))
unfolding weight_of
lookup-at_address (i, p) m h = elim (Option-cases (GoMap.lookup (address_text (i, p)) m)) [
  | inl n ↦ rw n refl
  | inr (be, e) ↦
      let q : ◌≡◌ {A = Address} (i, p) (address be) =
        address_text-injective (i, p) (address be)
          (lookup-IsKeyed (address_text (i, p)) m be h e) in
      rw e (ground (arith, q))
]

weight_of-empty : (k : Address) → weight_of (GoMap.lookup (address_text k) []) ≡ none
unfolding GoMap.lookup weight_of
weight_of-empty k = refl

pub merged_values-IsDistinct :
    (a b : List Backend) → Sort.IsDistinct address_order address (merged_values a b)
unfolding merged_values
merged_values-IsDistinct a b =
    values-IsDistinct (add_backends (add_backends [] a) b)
      (add_backends-IsKeyed b (add_backends [] a) (add_backends-IsKeyed a [] tt))
      (add_backends-IsMap b (add_backends [] a) (add_backends-IsMap a [] tt))

pub find-merged_values :
    (k : Address) (a b : List Backend)
    → Sort.find address_order address k (merged_values a b) ≡ at_address k (total k (a ++ b))
unfolding merged_values
find-merged_values k a b =
    let m = add_backends (add_backends [] a) b in
    let h : IsKeyed m = add_backends-IsKeyed b (add_backends [] a) (add_backends-IsKeyed a [] tt) in
    find-values k m h
    ∙ lookup-at_address k m h
    ∙ ap (at_address k) (
        lookup-add_backends k b (add_backends [] a)
        ∙ ap (λ w. plus w (total k b))
            (lookup-add_backends k a [] ∙ ap (λ w. plus w (total k a)) (weight_of-empty k))
        ∙ sym (total-append k a b))
