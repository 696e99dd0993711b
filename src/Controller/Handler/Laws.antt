-- ===== src/Controller/Handler/Laws.antt =====
-- What `syncHandler` does to `lastKnownServices`, so that a failed clean-up is tried again.
use mathlib.Core.Path.{subst}
use mlb_controller.Base.{
  ◌≡◌, refl, sym, ap, ◌∙◌, [], ◌∷◌, Option, none, some, Str, str_eq, str_beq_iff, inl, inr,
  Bool-cases, Option-cases, ◌⊎◌,
}
use mlb_controller.Base.GoMap
use mlb_controller.Base.GoMap.{GoMap}
use mlb_controller.Base.Text.{split}
use mlb_controller.Domain.Model.{Service}
use mlb_controller.Controller.Env.{
  Env, Controller, Action, Result, ok, err, Error, ◌>>=◌, ◌>>◌, pure, continue,
}
use mlb_controller.Controller.Sync.{sync_upstreams_for_service}
use mlb_controller.Controller.Handler.{
  handle_service_deletion, forget_service, remember_service, gone_as, service_gone, leave_as,
  leave_old, moved, service_present, handle_found, handle_parts, sync_handler,
}
use mlb_controller.Controller.Handler.Knows.{deletion_last, sync_last}

-- What a sequence of two operations returns.
bind_cases :
    (m : Result (Unit {0}) × Controller) (k : Action (Unit {0}))
    → ((m.0 ≡ ok tt) × (continue m (λ _. k) ≡ k m.1))
      ⊎ ((e : Error) × (m.0 ≡ err e) × (continue m (λ _. k) ≡ (err e, m.1)))
bind_cases (ok tt, c) k = inl (refl, refl)
bind_cases (err e, c) k = inr (e, refl, refl)

-- What a clean-up leaves: success forgets the service, and failure keeps what another try needs.
abbrev pub Gone : Str → Controller → Result (Unit {0}) × Controller → Type 0
Gone key c (ok u, c') = GoMap.lookup key c'.last_known_services ≡ none
Gone key c (err e, c') = c'.last_known_services ≡ c.last_known_services

forget-Gone : (key : Str) (c d : Controller) → Gone key c (forget_service key d)
unfolding forget_service
forget-Gone key c d =
    GoMap.lookup-delete key key d.last_known_services ∙ rw ((str_beq_iff key key).1 refl) refl

Gone-after :
    (env : Env) (key : Str) (c : Controller) (o : Option Service)
    → GoMap.lookup key c.last_known_services ≡ o
    → Gone key c (gone_as env key o c)
unfolding gone_as pure
Gone-after env key c none e = e
Gone-after env key c (some last) e =
    elim (bind_cases (handle_service_deletion env key last c) (forget_service key)) [
      | inl (done, q) ↦ rw (bound q) (forget-Gone key c (handle_service_deletion env key last c).1)
      | inr (d, failed, q) ↦ rw (bound q) (deletion_last env key last c)
    ]
  where
    bound :
        {r : Result (Unit {0}) × Controller}
        → continue (handle_service_deletion env key last c) (λ _. forget_service key) ≡ r
        → (handle_service_deletion env key last >> forget_service key) c ≡ r
    bound q = unfold ◌>>=◌ in q

-- For a key `namespace/name` whose service the cluster does not have: a synchronisation that
-- succeeds forgets the service, and one that fails leaves `lastKnownServices` as it was, so the
-- retry cleans the same upstream up.
pub sync_handler-Gone :
    (env : Env) (key namespace name : Str) (e : Error) (c : Controller)
    → split b'/' key ≡ namespace ∷ name ∷ []
    → env.k8s_client.get_service namespace name ≡ err e
    → Gone key c (sync_handler env key c)
unfolding sync_handler handle_parts handle_found service_gone
sync_handler-Gone env key namespace name e c s g =
    rw s (rw g (Gone-after env key c (GoMap.lookup key c.last_known_services) refl))

remember-lookup :
    (key : Str) (svc : Service) (c : Controller)
    → GoMap.lookup key (remember_service key svc c).1.last_known_services ≡ some svc
unfolding remember_service
remember-lookup key svc c =
    GoMap.lookup-insert key key svc c.last_known_services ∙ rw ((str_beq_iff key key).1 refl)

leave_old_last :
    (env : Env) (key : Str) (svc : Service) (c : Controller)
    → (leave_old env key svc c).1.last_known_services ≡ c.last_known_services
unfolding leave_old leave_as pure
leave_old_last env key svc c = elim (Option-cases (GoMap.lookup key c.last_known_services)) [
  | inl n ↦ rw n refl
  | inr (last, q) ↦ rw q (elim (Bool-cases (moved last svc)) [
    | inl t ↦ rw t (deletion_last env key last c)
    | inr f ↦ rw f refl
  ])
]

rest_last :
    (env : Env) (key : Str) (svc : Service) (c : Controller)
    → GoMap.lookup key
        ((remember_service key svc >> sync_upstreams_for_service env svc) c).1.last_known_services
      ≡ some svc
unfolding ◌>>=◌ remember_service
rest_last env key svc c =
    ap (GoMap.lookup key) (sync_last env svc (remember_service key svc c).1)
    ∙ remember-lookup key svc c

-- What follows from leaving the old upstream: success remembers the service whatever comes later,
-- and failure is returned and changes nothing that is known.
abbrev pub Left :
    Str → Service → Controller → Result (Unit {0}) → Result (Unit {0}) × Controller → Type 0
Left key svc c (ok u) r = GoMap.lookup key r.1.last_known_services ≡ some svc
Left key svc c (err e) r = (r.0 ≡ err e) × (r.1.last_known_services ≡ c.last_known_services)

present_after :
    (env : Env) (key : Str) (svc : Service) (c : Controller)
    → Left key svc c (leave_old env key svc c).0 (service_present env key svc c)
unfolding service_present ◌>>=◌
present_after env key svc c =
    let k = remember_service key svc >> sync_upstreams_for_service env svc in
    elim (bind_cases (leave_old env key svc c) k) [
      | inl (done, q) ↦
          subst (λ l. Left key svc c l (continue (leave_old env key svc c) (λ _. k))) (sym done)
            (ap (λ r. GoMap.lookup key r.1.last_known_services) q
              ∙ rest_last env key svc (leave_old env key svc c).1)
      | inr (d, failed, q) ↦
          subst (λ l. Left key svc c l (continue (leave_old env key svc c) (λ _. k))) (sym failed)
            (ap (λ r. r.0) q, ap (λ r. r.1.last_known_services) q ∙ leave_old_last env key svc c)
    ]

-- For a key `namespace/name` whose service the cluster has: once the old upstream has been left, the
-- service is remembered whatever becomes of the new one; if leaving it fails, the error is returned
-- and `lastKnownServices` stays, so the retry sees the change of labels again.
pub sync_handler_present :
    (env : Env) (key namespace name : Str) (svc : Service) (c : Controller)
    → split b'/' key ≡ namespace ∷ name ∷ []
    → env.k8s_client.get_service namespace name ≡ ok svc
    → Left key svc c (leave_old env key svc c).0 (sync_handler env key c)
unfolding sync_handler handle_parts handle_found
sync_handler_present env key namespace name svc c s g = rw s (rw g (present_after env key svc c))
