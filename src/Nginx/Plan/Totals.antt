-- ===== src/Nginx/Plan/Totals.antt =====
-- What `desiredBackend` of `SyncUpstream` holds for each key: the total of the weights.
use mlb_controller.Base.{
  ◌≡◌, refl, sym, ap, ◌∙◌, inl, inr, List, [], ◌∷◌, Option, none, some, Str, ◌==◌, str_eq,
  str_beq_iff, int_eq, if◌then◌else◌, ℤ, All, Bool-cases,
}
use mlb_controller.Base.GoMap
use mlb_controller.Base.GoMap.{GoMap}
use mlb_controller.Domain.Model.{Backend}
use mlb_controller.Controller.Merge.Weights.{plus, plus_assoc}
use mlb_controller.Nginx.Address.{backend_key}
use mlb_controller.Nginx.Plan.{weight_to_add, join_backend, aggregate}

abbrev pub weight_of : Option Backend → Option ℤ
weight_of none = none
weight_of (some b) = some b.weight

-- The weight that NGINX has for a key: the first server at the key decides.
abbrev pub weight_at : Str → List Backend → Option ℤ
weight_at k [] = none
weight_at k (cb ∷ cbs) = if backend_key cb == k then some cb.weight else weight_at k cbs

-- The weight that the controller wants for a key: the total over the backends at the key, each with
-- at least 1; none if no backend has the key.
abbrev pub wanted : Str → List Backend → Option ℤ
wanted k [] = none
wanted k (b ∷ bs) =
    plus (if backend_key b == k then some (weight_to_add b.weight) else none) (wanted k bs)

abbrev pub IsKeyed : GoMap Backend → Type 0
IsKeyed = All λ e. e.0 ≡ backend_key e.1

pub lookup-IsKeyed :
    (k : Str) (m : GoMap Backend) (b : Backend)
    → IsKeyed m
    → GoMap.lookup k m ≡ some b
    → backend_key b ≡ k
unfolding GoMap.lookup
lookup-IsKeyed k [] b h l = absurd cc
lookup-IsKeyed k ((j, v) ∷ m) b h l = elim (Bool-cases (j == k)) [
  | inl t ↦ ap backend_key (sym (injective (rw t at l))) ∙ sym h.0 ∙ (str_beq_iff j k).0 t
  | inr f ↦ lookup-IsKeyed k m b h.1 (rw f at l)
]
  where
    injective : {u v : Backend} → some u ≡ some v → u ≡ v
    injective q = cc

pub insert-IsKeyed :
    (k : Str) (b : Backend) (m : GoMap Backend)
    → k ≡ backend_key b
    → IsKeyed m
    → IsKeyed (GoMap.insert k b m)
unfolding GoMap.insert
insert-IsKeyed k b [] q h = (q, tt)
insert-IsKeyed k b ((j, v) ∷ m) q h = elim (Bool-cases (j == k)) [
  | inl t ↦ rw t (q, h.1)
  | inr f ↦ rw f (h.0, insert-IsKeyed k b m q h.1)
]

join_key :
    (o : Option Backend) (db : Backend)
    → ((b : Backend) → o ≡ some b → backend_key b ≡ backend_key db)
    → backend_key db ≡ backend_key (join_backend o db)
unfolding join_backend backend_key
join_key none db h = refl
join_key (some b) db h = sym (h b refl)

pub aggregate-IsKeyed :
    (bs : List Backend) (m : GoMap Backend) → IsKeyed m → IsKeyed (aggregate bs m)
unfolding aggregate
aggregate-IsKeyed [] m h = h
aggregate-IsKeyed (b ∷ bs) m h = aggregate-IsKeyed bs _ (
    insert-IsKeyed (backend_key b) (join_backend (GoMap.lookup (backend_key b) m) b) m
      (join_key (GoMap.lookup (backend_key b) m) b λ c l. lookup-IsKeyed (backend_key b) m c h l) h)

pub aggregate-IsMap :
    (bs : List Backend) (m : GoMap Backend) → GoMap.IsMap m → GoMap.IsMap (aggregate bs m)
unfolding aggregate
aggregate-IsMap [] m h = h
aggregate-IsMap (b ∷ bs) m h = aggregate-IsMap bs _ (GoMap.insert-IsMap (backend_key b) _ m h)

join_weight :
    (o : Option Backend) (db : Backend)
    → some (join_backend o db).weight ≡ plus (weight_of o) (some (weight_to_add db.weight))
unfolding join_backend
join_weight none db = refl
join_weight (some b) db = refl

pub plus-none : (w : Option ℤ) → plus w none ≡ w
plus-none none = refl
plus-none (some w) = refl

weight_of-insert :
    (k : Str) (b : Backend) (m : GoMap Backend)
    → weight_of (
        GoMap.lookup k
          (GoMap.insert (backend_key b) (join_backend (GoMap.lookup (backend_key b) m) b) m))
      ≡ plus
          (weight_of (GoMap.lookup k m))
          (if backend_key b == k then some (weight_to_add b.weight) else none)
weight_of-insert k b m =
    ap weight_of (GoMap.lookup-insert (backend_key b) k _ m)
    ∙ elim (Bool-cases (backend_key b == k)) [
      | inl t ↦ rw t (
          join_weight (GoMap.lookup (backend_key b) m) b
          ∙ ap (λ j. plus (weight_of (GoMap.lookup j m)) (some (weight_to_add b.weight)))
              ((str_beq_iff (backend_key b) k).0 t))
      | inr f ↦ rw f (sym (plus-none (weight_of (GoMap.lookup k m))))
    ]

pub aggregate-weight :
    (k : Str) (bs : List Backend) (m : GoMap Backend)
    → weight_of (GoMap.lookup k (aggregate bs m))
      ≡ plus (weight_of (GoMap.lookup k m)) (wanted k bs)
unfolding aggregate
aggregate-weight k [] m = sym (plus-none (weight_of (GoMap.lookup k m)))
aggregate-weight k (b ∷ bs) m =
    aggregate-weight k bs _
    ∙ ap (λ w. plus w (wanted k bs)) (weight_of-insert k b m)
    ∙ plus_assoc (weight_of (GoMap.lookup k m))
        (if backend_key b == k then some (weight_to_add b.weight) else none) (wanted k bs)
