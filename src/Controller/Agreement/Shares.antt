-- ===== src/Controller/Agreement/Shares.antt =====
-- What each service contributes to an upstream, in both synchronisations.
use mlb_controller.Base.{
  Bool, true, false, not, ◌&&◌, ◌≡◌, refl, sym, ap, ◌∙◌, List, [], ◌∷◌, Option, none, some, Str, ℤ,
  ◌==◌, str_eq, str_beq_iff, if◌then◌else◌, All, arith, Bool-cases, inl, inr,
}
use mlb_controller.Base.GoMap
use mlb_controller.Base.GoMap.{GoMap}
use mlb_controller.Domain.Model.{Service, Upstream}
use mlb_controller.Controller.Env.{Env, ok, upstream_name}
use mlb_controller.Controller.Merge.{merge_backends}
use mlb_controller.Controller.Merge.Key.{Address}
use mlb_controller.Controller.Merge.Weights.{plus, plus_assoc, total}
use mlb_controller.Controller.Merge.Stable.{total-merge_backends}
use mlb_controller.Controller.Sync.{service_upstream}
use mlb_controller.Controller.Reconcile.Desired.{
  join_upstream, add_service, is_target, desired_upstreams,
}
use mlb_controller.Controller.Agreement.Weights.{
  IsOk, share, sum_if, plus_zero, service_upstream-facts,
}

-- The total at an address of the backends of an upstream.
abbrev pub backends_total : Address → Option Upstream → Option ℤ
backends_total k none = none
backends_total k (some up) = total k up.backends

abbrev pub weight_in : Address → Str → GoMap Upstream → Option ℤ
weight_in k name m = backends_total k (GoMap.lookup name m)

abbrev pub is_kept : Option Upstream → Bool
is_kept none = false
is_kept (some up) = up.preserve_existing_backends

joined-kept :
    (o : Option Upstream) (up : Upstream)
    → is_kept o ≡ false
    → up.preserve_existing_backends ≡ false
    → is_kept (some (join_upstream o up)) ≡ false
unfolding join_upstream
joined-kept none up h p = p
joined-kept (some old) up h p = ground (arith, h)

joined-total :
    (k : Address) (o : Option Upstream) (up : Upstream)
    → is_kept o ≡ false
    → backends_total k (some (join_upstream o up)) ≡ plus (backends_total k o) (total k up.backends)
unfolding join_upstream
joined-total k none up h = refl
joined-total k (some old) up h = go old.preserve_existing_backends h
  where
    go :
        (b : Bool)
        → b ≡ false
        → total k
            (if not b
              then record old { backends = merge_backends old.backends up.backends }
              else old).backends
          ≡ plus (total k old.backends) (total k up.backends)
    go false q = total-merge_backends k old.backends up.backends
    go true q = absurd cc

-- The entry of an upstream after one more service.
abbrev Grows : Address → Str → GoMap Upstream → GoMap Upstream → Option ℤ → Type 0
Grows k name m m' w =
    (is_kept (GoMap.lookup name m') ≡ false) × (weight_in k name m' ≡ plus (weight_in k name m) w)

inserted :
    (k : Address) (name : Str) (up : Upstream) (m : GoMap Upstream)
    → is_kept (GoMap.lookup name m) ≡ false
    → up.preserve_existing_backends ≡ false
    → Grows k name m
        (GoMap.insert up.name (join_upstream (GoMap.lookup up.name m) up) m)
        (if up.name == name then total k up.backends else none)
inserted k name up m h p = elim (Bool-cases (up.name == name)) [
  | inl t ↦
      let e : GoMap.lookup up.name m ≡ GoMap.lookup name m =
        ap (λ n. GoMap.lookup n m) ((str_beq_iff up.name name).0 t) in
      let found : GoMap.lookup name
            (GoMap.insert up.name (join_upstream (GoMap.lookup up.name m) up) m)
          ≡ some (join_upstream (GoMap.lookup up.name m) up) =
        GoMap.lookup-insert up.name name (join_upstream (GoMap.lookup up.name m) up) m
        ∙ rw t refl in
      (
        ap is_kept found ∙ joined-kept (GoMap.lookup up.name m) up (ap is_kept e ∙ h) p,
        ap (backends_total k) found
            ∙ joined-total k (GoMap.lookup up.name m) up (ap is_kept e ∙ h)
            ∙ ap (λ o. plus (backends_total k o) (total k up.backends)) e
            ∙ rw t refl,
      )
  | inr f ↦
      let found : GoMap.lookup name
            (GoMap.insert up.name (join_upstream (GoMap.lookup up.name m) up) m)
          ≡ GoMap.lookup name m =
        GoMap.lookup-insert up.name name (join_upstream (GoMap.lookup up.name m) up) m
        ∙ rw f refl in
      (
        ap is_kept found ∙ h,
        ap (backends_total k) found ∙ sym (plus_zero (weight_in k name m)) ∙ rw f refl,
      )
]

unchanged :
    (k : Address) (name : Str) (m : GoMap Upstream)
    → is_kept (GoMap.lookup name m) ≡ false
    → Grows k name m m none
unchanged k name m h = (h, sym (plus_zero (weight_in k name m)))

no_share : (b : Bool) → ◌≡◌ {A = Option ℤ} none (if b then none else none)
no_share true = refl
no_share false = refl

added :
    (env : Env) (lb name : Str) (known : GoMap Upstream) (k : Address) (svc : Service)
    (o : Option Upstream) (m : GoMap Upstream)
    → service_upstream env svc ≡ ok o
    → is_kept (GoMap.lookup name m) ≡ false
    → Grows k name m
        (add_service lb known svc (ok o) m)
        (if upstream_name svc == name then share k (ok o) else none)
unfolding add_service
added env lb name known k svc none m q h =
    let (a, b) = unchanged k name m h in
    (a, b ∙ ap (plus (weight_in k name m)) (no_share (upstream_name svc == name)))
added env lb name known k svc (some up) m q h =
    let (n, p) = service_upstream-facts env svc up q in
    let (a, b) = inserted k name up m h p in
    (a, b ∙ ap (λ j. plus (weight_in k name m) (if j == name then total k up.backends else none)) n)

pub desired_upstreams-total :
    (env : Env) (lb name : Str) (known : GoMap Upstream) (k : Address) (svcs : List Service)
    (m : GoMap Upstream)
    → All (IsOk env) svcs
    → is_kept (GoMap.lookup name m) ≡ false
    → weight_in k name (desired_upstreams env lb known svcs m)
      ≡ plus
          (weight_in k name m)
          (sum_if k env (λ s. is_target lb s && upstream_name s == name) svcs)
unfolding desired_upstreams
desired_upstreams-total env lb name known k [] m oks h = sym (plus_zero (weight_in k name m))
desired_upstreams-total env lb name known k (s ∷ ss) m oks h =
    let (o, q) = oks.0 in
    let rest : Option ℤ = sum_if k env (λ s. is_target lb s && upstream_name s == name) ss in
    elim (Bool-cases (is_target lb s)) [
      | inl t ↦
          let (a, b) = added env lb name known k s o m q h in
          rw (desired_upstreams, t, q)
            (desired_upstreams-total env lb name known k ss (add_service lb known s (ok o) m) oks.1
                a
              ∙ ap (λ w. plus w rest) b
              ∙ plus_assoc (weight_in k name m)
                  (if upstream_name s == name then share k (ok o) else none) rest)
      | inr f ↦ rw (desired_upstreams, f) (desired_upstreams-total env lb name known k ss m oks.1 h)
    ]
