-- ===== src/Base/Sort.antt =====
-- `sort.Slice` and `sort.Strings` on a slice whose keys all differ: every sorting routine gives the
-- one strictly sorted slice with the same elements, so an insertion sort stands for them.
pub mod Canonical
use mathlib.Core.Path.{◌≡◌, refl, sym, ap, ap₂, ◌∙◌}
use mathlib.Core.Logic.{◌≢◌, inl, inr}
use mathlib.Core.Bool.{Bool, true, false}
use mathlib.Core.Option.{Option, none, some}
use mathlib.Core.List.{List, [], ◌∷◌, Perm, Permᴰ}
use native.Mathlib.Omega.{arith}
use mlb_controller.Base.Tests.{Eq, ◌==◌, if◌then◌else◌, Bool-cases}
use mlb_controller.Base.Lists.{All}
use mlb_controller.Base.Order.{StrictOrder}

module _ {A K : Type 0} ⦃e : Eq K⦄ (o : StrictOrder K) (key : A → K) where
  -- The first element with a given key.
  unfoldable pub find : K → List A → Option A
  find k [] = none
  find k (x ∷ xs) = if key x == k then some x else find k xs

  unfoldable pub insert_sorted : A → List A → List A
  insert_sorted x [] = x ∷ []
  insert_sorted x (y ∷ ys) = if o.lt (key x) (key y) then x ∷ y ∷ ys else y ∷ insert_sorted x ys

  unfoldable pub sort : List A → List A
  unfolding insert_sorted
  sort [] = []
  sort (x ∷ xs) = insert_sorted x (sort xs)

  -- Every key of the list lies above `k`.
  abbrev pub Above : K → List A → Type 0
  Above k = All (λ y. o.lt k (key y) ≡ true)

  abbrev pub IsSorted : List A → Type 0
  IsSorted [] = Unit
  IsSorted (x ∷ xs) = Above (key x) xs × IsSorted xs

  -- No key occurs twice.
  abbrev pub IsDistinct : List A → Type 0
  IsDistinct [] = Unit
  IsDistinct (x ∷ xs) = (find (key x) xs ≡ none) × IsDistinct xs

  pub Above-trans : (j k : K) (xs : List A) → o.lt j k ≡ true → Above k xs → Above j xs
  Above-trans j k [] h a = tt
  Above-trans j k (x ∷ xs) h a = (o.trans j k (key x) h a.0, Above-trans j k xs h a.1)

  pub find-Above : (k : K) (xs : List A) → Above k xs → find k xs ≡ none
  unfolding find
  find-Above k [] a = refl
  find-Above k (x ∷ xs) a = grind (arith, e.beq_iff (key x) k, o.irrefl k, find-Above k xs a.1)

  pub IsSorted-IsDistinct : (xs : List A) → IsSorted xs → IsDistinct xs
  IsSorted-IsDistinct [] h = tt
  IsSorted-IsDistinct (x ∷ xs) h = (find-Above (key x) xs h.0, IsSorted-IsDistinct xs h.1)

  pub find-insert_sorted :
      (k : K) (x : A) (xs : List A)
      → find (key x) xs ≡ none
      → find k (insert_sorted x xs) ≡ (if key x == k then some x else find k xs)
  unfolding find insert_sorted
  find-insert_sorted k x [] h = refl
  find-insert_sorted k x (y ∷ ys) h = ground (
    arith,
    e.beq_iff (key x) k,
    e.beq_iff (key y) k,
    e.beq_iff (key y) (key x),
    find-insert_sorted k x ys,
  )

  Above-insert_sorted :
      (k : K) (x : A) (xs : List A)
      → o.lt k (key x) ≡ true
      → Above k xs
      → Above k (insert_sorted x xs)
  unfolding insert_sorted
  Above-insert_sorted k x [] h a = (h, tt)
  Above-insert_sorted k x (y ∷ ys) h a = elim (Bool-cases (o.lt (key x) (key y))) [
    | inl t ↦ rw t (h, a)
    | inr f ↦ rw f (a.0, Above-insert_sorted k x ys h a.1)
  ]

  insert_sorted-IsSorted :
      (x : A) (xs : List A) → find (key x) xs ≡ none → IsSorted xs → IsSorted (insert_sorted x xs)
  unfolding insert_sorted find
  insert_sorted-IsSorted x [] h s = (tt, tt)
  insert_sorted-IsSorted x (y ∷ ys) h s = elim (Bool-cases (o.lt (key x) (key y))) [
    | inl t ↦ rw t ((t, Above-trans (key x) (key y) ys t s.0), s)
    | inr f ↦ elim (Bool-cases (o.lt (key y) (key x))) [
      | inl g ↦ rw f (
        Above-insert_sorted (key y) x ys g s.0,
        insert_sorted-IsSorted x ys (ground (arith, e.beq_iff (key y) (key x))) s.1,
      )
      | inr g ↦ absurd (ground (arith, e.beq_iff (key y) (key x), o.total (key x) (key y)))
    ]
  ]

  pub find-sort : (k : K) (xs : List A) → IsDistinct xs → find k (sort xs) ≡ find k xs
  unfolding sort find
  find-sort k [] h = refl
  find-sort k (x ∷ xs) h =
      find-insert_sorted k x (sort xs) (find-sort (key x) xs h.1 ∙ h.0)
      ∙ ap (λ r. if key x == k then some x else r) (find-sort k xs h.1)

  pub sort-IsSorted : (xs : List A) → IsDistinct xs → IsSorted (sort xs)
  unfolding sort
  sort-IsSorted [] h = tt
  sort-IsSorted (x ∷ xs) h =
      insert_sorted-IsSorted x (sort xs) (find-sort (key x) xs h.1 ∙ h.0) (sort-IsSorted xs h.1)
