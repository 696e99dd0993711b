-- ===== src/Base/Sort/Canonical.antt =====
-- The sorted slice is fixed by what a search for each key finds: neither the sorting routine nor
-- the order of its input matters.
use mathlib.Core.Path.{◌≡◌, refl, sym, ap, ap₂, subst, ◌∙◌}
use mathlib.Core.Logic.{inl, inr}
use mathlib.Core.Bool.{true}
use mathlib.Core.Option.{Option, none, some}
use mathlib.Core.List.{List, [], ◌∷◌, Permᴰ}
use native.Mathlib.Omega.{arith}
use mlb_controller.Base.Tests.{Eq, ◌==◌, if◌then◌else◌, Bool-cases}
use mlb_controller.Base.Order.{StrictOrder}
use mlb_controller.Base.Sort

module _ {A K : Type 0} ⦃e : Eq K⦄ (o : StrictOrder K) (key : A → K) where
  some-ne-none : {x : A} → ◌≡◌ {A = Option A} (some x) none → ⊥
  some-ne-none h = cc

  some-eq : {x y : A} → ◌≡◌ {A = Option A} (some x) (some y) → x ≡ y
  some-eq h = cc

  find-head : (x : A) (xs : List A) → Sort.find o key (key x) (x ∷ xs) ≡ some x
  unfolding Sort.find
  find-head x xs = ground (arith, e.beq_iff (key x) (key x))

  -- A sorted slice has no element below its head.
  find-below :
      (k : K) (y : A) (ys : List A)
      → Sort.IsSorted o key (y ∷ ys)
      → o.lt k (key y) ≡ true
      → Sort.find o key k (y ∷ ys) ≡ none
  find-below k y ys s h =
      Sort.find-Above o key k (y ∷ ys) (h, Sort.Above-trans o key k (key y) ys h s.0)

  -- What the tails find, once the heads are one.
  find-tail :
      (k : K) (x : A) (xs ys : List A)
      → Sort.find o key (key x) xs ≡ none
      → Sort.find o key (key x) ys ≡ none
      → Sort.find o key k (x ∷ xs) ≡ Sort.find o key k (x ∷ ys)
      → Sort.find o key k xs ≡ Sort.find o key k ys
  unfolding Sort.find
  find-tail k x xs ys hx hy h = elim (Bool-cases (key x == k)) [
    | inl t ↦ let q : key x ≡ k = (e.beq_iff (key x) k).0 t in cc (q, hx, hy)
    | inr f ↦ rw f at h
  ]

  -- Two sorted slices in which every search finds the same are equal.
  pub IsSorted-ext :
      (xs ys : List A)
      → Sort.IsSorted o key xs
      → Sort.IsSorted o key ys
      → ((k : K) → Sort.find o key k xs ≡ Sort.find o key k ys)
      → xs ≡ ys
  IsSorted-ext [] [] hx hy h = refl
  IsSorted-ext [] (y ∷ ys) hx hy h =
      absurd (some-ne-none (sym (find-head y ys) ∙ sym (h (key y)) ∙ unfold Sort.find in refl))
  IsSorted-ext (x ∷ xs) [] hx hy h =
      absurd (some-ne-none (sym (find-head x xs) ∙ h (key x) ∙ unfold Sort.find in refl))
  IsSorted-ext (x ∷ xs) (y ∷ ys) hx hy h = elim (Bool-cases (o.lt (key x) (key y))) [
    | inl t ↦
        absurd (some-ne-none (sym (find-head x xs) ∙ h (key x) ∙ find-below (key x) y ys hy t))
    | inr f ↦ elim (Bool-cases (o.lt (key y) (key x))) [
      | inl t ↦
          absurd
            (some-ne-none (sym (find-head y ys) ∙ sym (h (key y)) ∙ find-below (key y) x xs hx t))
      | inr g ↦
          let q : key x ≡ key y = o.total (key x) (key y) f g in
          let r : x ≡ y = some-eq (
            sym (find-head x xs)
            ∙ h (key x)
            ∙ ap (λ k. Sort.find o key k (y ∷ ys)) q
            ∙ find-head y ys) in
          let tails : (k : K) → Sort.find o key k xs ≡ Sort.find o key k ys = λ k.
            find-tail k x xs ys (Sort.find-Above o key (key x) xs hx.0)
              (ap (λ j. Sort.find o key j ys) q ∙ Sort.find-Above o key (key y) ys hy.0)
              (h k ∙ ap (λ z. Sort.find o key k (z ∷ ys)) (sym r)) in
          ap₂ (λ z zs. z ∷ zs) r (IsSorted-ext xs ys hx.1 hy.1 tails)
    ]
  ]

  swap_same :
      (a b : A) (l : List A)
      → Sort.IsDistinct o key (a ∷ b ∷ l)
      → Sort.IsDistinct o key (b ∷ a ∷ l)
        × ((k : K) → Sort.find o key k (a ∷ b ∷ l) ≡ Sort.find o key k (b ∷ a ∷ l))
  unfolding Sort.find
  swap_same a b l d = (
    (
      ground (arith, e.beq_iff (key a) (key b), e.beq_iff (key b) (key a)),
      (ground (arith, e.beq_iff (key a) (key b), e.beq_iff (key b) (key a)), d.1.1),
    ),
    λ k. ground (arith, e.beq_iff (key a) k, e.beq_iff (key b) k, e.beq_iff (key b) (key a)),
  )

  swap_case :
      (a b a' b' : A) (l : List A)
      → a ≡ b'
      → b ≡ a'
      → Sort.IsDistinct o key (a ∷ b ∷ l)
      → Sort.IsDistinct o key (a' ∷ b' ∷ l)
        × ((k : K) → Sort.find o key k (a ∷ b ∷ l) ≡ Sort.find o key k (a' ∷ b' ∷ l))
  unfolding Sort.find
  swap_case a b a' b' l q r d =
      subst
        (λ z.
          Sort.IsDistinct o key (a' ∷ z ∷ l)
          × ((k : K) → Sort.find o key k (a ∷ b ∷ l) ≡ Sort.find o key k (a' ∷ z ∷ l)))
        q
        (subst
          (λ z.
            Sort.IsDistinct o key (z ∷ a ∷ l)
            × ((k : K) → Sort.find o key k (a ∷ b ∷ l) ≡ Sort.find o key k (z ∷ a ∷ l)))
          r (swap_same a b l d))

  -- A permutation of a list with distinct keys keeps them distinct, and finds the same.
  find-Permᴰ :
      {xs ys : List A}
      → Permᴰ xs ys
      → Sort.IsDistinct o key xs
      → Sort.IsDistinct o key ys × ((k : K) → Sort.find o key k xs ≡ Sort.find o key k ys)
  unfolding Sort.find
  find-Permᴰ Permᴰ.nil d = (tt, λ k. refl)
  find-Permᴰ (Permᴰ.cons {a = a} {b = b} {l₁ = l₁} {l₂ = l₂} q p) d =
      let ih = find-Permᴰ p d.1 in
      (
        (cc (d.0, ih.1 (key a), ap (λ z. Sort.find o key (key z) l₂) q), ih.0),
        λ k. ap₂ (λ z r. if key z == k then some z else r) q (ih.1 k),
      )
  find-Permᴰ (Permᴰ.swap {a = a} {b = b} {a' = a'} {b' = b'} {l = l} q r) d =
      swap_case a b a' b' l q r d
  find-Permᴰ (Permᴰ.trans p q) d =
      let ih = find-Permᴰ p d in let ih' = find-Permᴰ q ih.0 in (ih'.0, λ k. ih.1 k ∙ ih'.1 k)

  -- Whatever the order of the input, the sorted slice is the same.
  pub sort-Permᴰ :
      {xs ys : List A}
      → Permᴰ xs ys
      → Sort.IsDistinct o key xs
      → Sort.sort o key xs ≡ Sort.sort o key ys
  sort-Permᴰ {xs} {ys} p d =
      let f = find-Permᴰ p d in
      IsSorted-ext (Sort.sort o key xs) (Sort.sort o key ys) (Sort.sort-IsSorted o key xs d)
        (Sort.sort-IsSorted o key ys f.0)
        λ k. Sort.find-sort o key k xs d ∙ f.1 k ∙ sym (Sort.find-sort o key k ys f.0)
