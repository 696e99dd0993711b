-- ===== src/Controller/Agreement/Weights.antt =====
-- What one service gives to an upstream in internal/controller/controller.go, and what the merge of the
-- other services gives.
use mlb_controller.Base.{
  Bool, false, ◌≡◌, refl, sym, ap, ◌∙◌, List, [], ◌∷◌, Option, none, some, ℤ, str_eq, if◌then◌else◌,
  arith, Bool-cases, inl, inr,
}
use mlb_controller.Domain.Model.{Service, Pod, Backend, Upstream}
use mlb_controller.Controller.Env.{
  Env, Result, Result-cases, ok, err, Error, pods_failed, build_failed, upstream_name,
}
use mlb_controller.Controller.Build.{build_upstream}
use mlb_controller.Controller.Merge.Key.{Address}
use mlb_controller.Controller.Merge.Weights.{plus, plus_assoc, total}
use mlb_controller.Controller.Merge.Stable.{total-merge_backends}
use mlb_controller.Controller.Sync.{
  wrap, and_then, service_upstream, shares_upstream, merge_found, merge_others,
}

abbrev pub IsOk : Env → Service → Type 0
IsOk env s = (o : Option Upstream) × (service_upstream env s ≡ ok o)

-- The total at an address of what a service contributes.
abbrev pub share : Address → Result (Option Upstream) → Option ℤ
share k (ok (some up)) = total k up.backends
share k (ok none) = none
share k (err e) = none

abbrev pub sum_if : Address → Env → (Service → Bool) → List Service → Option ℤ
sum_if k env p [] = none
sum_if k env p (s ∷ ss) =
    plus (if p s then share k (service_upstream env s) else none) (sum_if k env p ss)

pub plus_zero : (w : Option ℤ) → plus w none ≡ w
plus_zero none = refl
plus_zero (some w) = refl

merged :
    (k : Address) (bs : List Backend) (o : Option Upstream)
    → total k (merge_found bs o) ≡ plus (total k bs) (share k (ok o))
merged k bs none = sym (plus_zero (total k bs))
merged k bs (some up) = total-merge_backends k bs up.backends

pub merge_others-total :
    (env : Env) (svc : Service) (k : Address) (bs : List Backend) (others : List Service)
    (cs : List Backend)
    → merge_others env svc bs others ≡ ok cs
    → total k cs ≡ plus (total k bs) (sum_if k env (shares_upstream svc) others)
unfolding merge_others
merge_others-total env svc k bs [] cs h =
    let q : bs ≡ cs = cc in ap (total k) (sym q) ∙ sym (plus_zero (total k bs))
merge_others-total env svc k bs (s ∷ ss) cs h = elim (Bool-cases (shares_upstream svc s)) [
  | inr f ↦ rw f (merge_others-total env svc k bs ss cs (rw (merge_others, f) at h))
  | inl t ↦ elim (Result-cases (service_upstream env s)) [
    | inr (e, q) ↦ absurd (failed (rw (merge_others, t, q) at h))
    | inl (o, q) ↦
        rw (t, q)
          (merge_others-total env svc k (merge_found bs o) ss cs (rw (merge_others, t, q) at h)
            ∙ ap (λ w. plus w (sum_if k env (shares_upstream svc) ss)) (merged k bs o)
            ∙ plus_assoc (total k bs) (share k (ok o)) (sum_if k env (shares_upstream svc) ss))
  ]
]
  where
    failed : {e : Error} → ◌≡◌ {A = Result (List Backend)} (err e) (ok cs) → ⊥
    failed q = cc

build_upstream-facts :
    (env : Env) (svc : Service) (pods : List Pod) (up : Upstream)
    → build_upstream env svc pods ≡ ok (some up)
    → (up.name ≡ upstream_name svc) × (up.preserve_existing_backends ≡ false)
unfolding build_upstream
build_upstream-facts env svc pods up h = (ground arith, ground arith)

pub service_upstream-facts :
    (env : Env) (svc : Service) (up : Upstream)
    → service_upstream env svc ≡ ok (some up)
    → (up.name ≡ upstream_name svc) × (up.preserve_existing_backends ≡ false)
unfolding service_upstream
service_upstream-facts env svc up h =
    from_pods (env.k8s_client.get_pods_for_selector svc.namespace svc.selector) h
  where
    built :
        (pods : List Pod) (r : Result (Option Upstream))
        → build_upstream env svc pods ≡ r
        → wrap (build_failed svc.namespace svc.name) r ≡ ok (some up)
        → (up.name ≡ upstream_name svc) × (up.preserve_existing_backends ≡ false)
    built pods (ok o) e q = build_upstream-facts env svc pods up (e ∙ q)
    built pods (err d) e q = absurd cc

    from_pods :
        (r : Result (List Pod))
        → and_then
            (wrap (pods_failed svc.namespace svc.name) r)
            (λ pods. wrap (build_failed svc.namespace svc.name) (build_upstream env svc pods))
          ≡ ok (some up)
        → (up.name ≡ upstream_name svc) × (up.preserve_existing_backends ≡ false)
    from_pods (ok pods) q = built pods (build_upstream env svc pods) refl q
    from_pods (err d) q = absurd cc
