-- ===== src/Base/GoMap.antt =====
-- Go's `map[string]V`: an association list. The order of its entries stands for the order in which
-- `range` meets them, which Go leaves open.
use mathlib.Core.Path.{◌≡◌, refl}
use mathlib.Core.Bool.{Bool}
use mathlib.Core.Option.{Option, none, some}
use mathlib.Core.List.{List, [], ◌∷◌}
use native.Mathlib.Omega.{arith}
use mlb_controller.Base.Tests.{◌==◌, if◌then◌else◌, is_some}
use mlb_controller.Base.Bytes.{Str, str_eq, str_beq_iff}

abbrev pub GoMap {ℓ} : Type ℓ → Type ℓ
GoMap V = List (Str × V)

module _ {ℓ} {V : Type ℓ} where
  -- v, ok := m[k]
  unfoldable pub lookup : Str → GoMap V → Option V
  lookup k [] = none
  lookup k ((j, v) ∷ m) = if j == k then some v else lookup k m

  -- m[k] = v
  unfoldable pub insert : Str → V → GoMap V → GoMap V
  insert key new [] = (key, new) ∷ []
  insert key new ((j, old) ∷ rest) =
      if j == key then (key, new) ∷ rest else (j, old) ∷ insert key new rest

  -- delete(m, k)
  unfoldable pub delete : Str → GoMap V → GoMap V
  delete k [] = []
  delete k ((j, v) ∷ m) = let rest = delete k m in if j == k then rest else (j, v) ∷ rest

  unfoldable pub keys : GoMap V → List Str
  keys [] = []
  keys ((k, v) ∷ m) = k ∷ keys m

  unfoldable pub values : GoMap V → List V
  values [] = []
  values ((k, v) ∷ m) = v ∷ values m

  -- _, exists := m[k]
  abbrev pub has : Str → GoMap V → Bool
  has k m = is_some (lookup k m)

  -- m[k] where the zero value `d` stands for a missing key.
  abbrev pub index : V → Str → GoMap V → V
  index d k m = elim (lookup k m) [ none ↦ d | some v ↦ v ]

  pub lookup-insert :
      (key at : Str) (new : V) (m : GoMap V)
      → lookup at (insert key new m) ≡ (if key == at then some new else lookup at m)
  unfolding insert lookup
  lookup-insert key at new [] = refl
  lookup-insert key at new ((i, old) ∷ rest) = ground (
    lookup-insert key at new rest,
    str_beq_iff i at,
    str_beq_iff i key,
    str_beq_iff key at,
    arith,
  )

  pub lookup-delete :
      (k j : Str) (m : GoMap V) → lookup j (delete k m) ≡ (if k == j then none else lookup j m)
  unfolding lookup delete
  lookup-delete k j [] = ground arith
  lookup-delete k j ((i, w) ∷ m) =
      ground (arith, str_beq_iff k j, str_beq_iff i k, str_beq_iff i j, lookup-delete k j m)

  -- No key occurs twice, as in every map that the operations build.
  abbrev pub IsMap : GoMap V → Type ℓ
  IsMap [] = Unit
  IsMap ((k, v) ∷ m) = (lookup k m ≡ none) × IsMap m

  pub insert-IsMap : (k : Str) (v : V) (m : GoMap V) → IsMap m → IsMap (insert k v m)
  unfolding insert lookup
  insert-IsMap k v [] h = (refl, tt)
  insert-IsMap k v ((j, w) ∷ m) h =
      ground
        (arith, str_beq_iff j k, str_beq_iff k j, lookup-insert k j v m, insert-IsMap k v m h.1)

  pub delete-IsMap : (k : Str) (m : GoMap V) → IsMap m → IsMap (delete k m)
  unfolding delete
  delete-IsMap k [] h = tt
  delete-IsMap k ((j, w) ∷ m) h =
      ground (arith, str_beq_iff j k, str_beq_iff k j, lookup-delete k j m, delete-IsMap k m h.1)

pub ruleset map_laws = (lookup-insert, lookup-delete)
