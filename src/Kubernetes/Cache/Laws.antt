-- ===== src/Kubernetes/Cache/Laws.antt =====
-- What the controller can rely on when it reads from the caches.
use mlb_controller.Base.{
  Bool, true, false, ◌&&◌, ◌≡◌, ◌⊎◌, refl, sym, ap, ◌∙◌, ◌==◌, str_beq_iff, ◌++◌, List, [], ◌∷◌,
  Str, codes, All, arith, Bool-cases, inl, inr, none, str_eq,
}
use mlb_controller.Base.GoMap
use mlb_controller.Base.GoMap.{GoMap}
use mlb_controller.Domain.Model.{Service}
use mlb_controller.Controller.Env.{Env, Result, ok, err, Error}
use mlb_controller.Controller.Build.{pod_backend}
use mlb_controller.Kubernetes.Objects.{
  ServiceObject, PodObject, is_mlb_service, is_exposed, map_service, map_pod, is_pod_ready,
}
use mlb_controller.Kubernetes.Cache.{
  Listers, keep_managed, all_managed, list_services, managed, get_service,
}

-- The three labels and the type of a service that the controller manages.
abbrev pub AreManaged : GoMap Str → Str → Type 0
AreManaged labels service_type =
    (GoMap.has (codes "mlb-loadbalancer-name") labels ≡ true)
    × (GoMap.has (codes "mlb-upstream-name") labels ≡ true)
    × (GoMap.has (codes "mlb-port") labels ≡ true)
    × ((service_type ≡ codes "NodePort") ⊎ (service_type ≡ codes "LoadBalancer"))

abbrev pub IsManaged : Service → Type 0
IsManaged svc = AreManaged svc.labels svc.service_type

is_exposed-NodePort :
    (t : Str) → is_exposed t ≡ true → (t ≡ codes "NodePort") ⊎ (t ≡ codes "LoadBalancer")
unfolding is_exposed
is_exposed-NodePort t h = elim (Bool-cases (t == codes "LoadBalancer")) [
  | inl q ↦ inr ((str_beq_iff t (codes "LoadBalancer")).0 q)
  | inr q ↦ inl ((str_beq_iff t (codes "NodePort")).0 (rw q at h))
]

NodePort-is_exposed :
    (t : Str) → (t ≡ codes "NodePort") ⊎ (t ≡ codes "LoadBalancer") → is_exposed t ≡ true
unfolding is_exposed
NodePort-is_exposed t (inl e) = ground (arith, (str_beq_iff t (codes "NodePort")).1 e)
NodePort-is_exposed t (inr e) = rw ((str_beq_iff t (codes "LoadBalancer")).1 e) refl

and_true : {a b : Bool} → (a && b) ≡ true → (a ≡ true) × (b ≡ true)
and_true {a = true} h = (refl, h)
and_true {a = false} h = absurd (ground arith)

mapped-IsManaged : (svc : ServiceObject) → is_mlb_service svc ≡ true → IsManaged (map_service svc)
unfolding is_mlb_service map_service
mapped-IsManaged svc h =
    let (labels, exposed) = and_true h in
    let (two, port) = and_true labels in
    let (lb, upstream) = and_true two in
    (lb, upstream, port, is_exposed-NodePort svc.service_type exposed)

AreManaged-is_mlb_service :
    (svc : ServiceObject) → AreManaged svc.labels svc.service_type → is_mlb_service svc ≡ true
unfolding is_mlb_service
AreManaged-is_mlb_service svc (lb, upstream, port, exposed) =
    rw (lb, upstream, port, NodePort-is_exposed svc.service_type exposed) refl

keep_managed-keeps :
    (before after : List ServiceObject) (object : ServiceObject)
    → AreManaged object.labels object.service_type
    → keep_managed (before ++ object ∷ after)
      ≡ keep_managed before ++ map_service object ∷ keep_managed after
unfolding keep_managed
keep_managed-keeps [] after object h = rw (AreManaged-is_mlb_service object h) refl
keep_managed-keeps (o ∷ before) after object h = elim (Bool-cases (is_mlb_service o)) [
  | inl t ↦ rw t (ap (λ xs. map_service o ∷ xs) (keep_managed-keeps before after object h))
  | inr f ↦ rw f (keep_managed-keeps before after object h)
]

keep_managed-IsManaged : (svcs : List ServiceObject) → All IsManaged (keep_managed svcs)
unfolding keep_managed
keep_managed-IsManaged [] = tt
keep_managed-IsManaged (svc ∷ svcs) = elim (Bool-cases (is_mlb_service svc)) [
  | inl t ↦ rw t (mapped-IsManaged svc t, keep_managed-IsManaged svcs)
  | inr f ↦ rw f (keep_managed-IsManaged svcs)
]

all_managed-IsManaged :
    (r : Result (List ServiceObject)) (svcs : List Service)
    → all_managed r ≡ ok svcs
    → All IsManaged svcs
unfolding all_managed
all_managed-IsManaged (err e) svcs h = absurd cc
all_managed-IsManaged (ok objects) svcs h =
    let q : keep_managed objects ≡ svcs = cc in rw (← q) (keep_managed-IsManaged objects)

get-IsManaged :
    (namespace name : Str) (r : Result ServiceObject) (svc : Service)
    → managed namespace name r ≡ ok svc
    → IsManaged svc
unfolding managed
get-IsManaged namespace name (err e) svc h = absurd cc
get-IsManaged namespace name (ok object) svc h = elim (Bool-cases (is_mlb_service object)) [
  | inl t ↦
      let q : map_service object ≡ svc = injective (rw t at h) in
      rw (← q) (mapped-IsManaged object t)
  | inr f ↦ absurd (impossible (rw f at h))
]
  where
    injective : {u v : Service} → ◌≡◌ {A = Result Service} (ok u) (ok v) → u ≡ v
    injective q = cc

    impossible : {e : Error} → ◌≡◌ {A = Result Service} (err e) (ok svc) → ⊥
    impossible q = cc

-- Where `ListServices` and `GetService` both succeed, every service that they return carries the labels
-- `mlb-loadbalancer-name`, `mlb-upstream-name` and `mlb-port` and is of type NodePort or LoadBalancer.
-- And `ListServices` misses none: it returns every service of the informer's cache that has the three
-- labels and one of these types.
pub services-IsManaged :
    (l : Listers) (namespace name : Str) (before after : List ServiceObject)
    (object : ServiceObject) (svcs : List Service) (svc : Service)
    → l.services ≡ ok (before ++ object ∷ after)
    → AreManaged object.labels object.service_type
    → list_services l ≡ ok svcs
    → get_service l namespace name ≡ ok svc
    → All IsManaged (svc ∷ svcs) × ((xs ys : List Service) × (svcs ≡ xs ++ map_service object ∷ ys))
unfolding list_services get_service all_managed
services-IsManaged l namespace name before after object svcs svc q m h g = (
  (
    get-IsManaged namespace name (l.service namespace name) svc g,
    all_managed-IsManaged l.services svcs h,
  ),
  (
    keep_managed before,
    keep_managed after,
    injective (sym h ∙ ap all_managed q) ∙ keep_managed-keeps before after object m,
  ),
)
  where
    injective : {us vs : List Service} → ◌≡◌ {A = Result (List Service)} (ok us) (ok vs) → us ≡ vs
    injective e = cc

-- A pod that is being deleted adds no backend to any upstream, whatever its conditions are.
pub terminating_pod-no_backend :
    (env : Env) (svc : Service) (pod : PodObject)
    → pod.deleting ≡ true
    → pod_backend env svc (map_pod pod) ≡ ok none
unfolding pod_backend map_pod is_pod_ready
terminating_pod-no_backend env svc pod h = ground (arith, h)
