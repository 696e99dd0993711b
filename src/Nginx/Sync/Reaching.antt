-- ===== src/Nginx/Sync/Reaching.antt =====
-- What the servers serve after `SyncUpstream`.
use mlb_controller.Base.{
  suc, Bool, true, false, not, ◌&&◌, ◌≡◌, refl, sym, ap, ◌∙◌, inl, inr, List, [], ◌∷◌, ◌++◌, Option,
  none, some, Str, ◌==◌, str_eq, if◌then◌else◌, ℤ, is_some, Option-cases, arith, append_nil,
  append_assoc,
}
use mlb_controller.Base.GoMap
use mlb_controller.Base.GoMap.{GoMap}
use mlb_controller.Domain.Model.{Backend}
use mlb_controller.Nginx.Address.{backend_key}
use mlb_controller.Nginx.Plan.{
  aggregate, current_backends, update_backends, remove_backends, in_order,
}
use mlb_controller.Nginx.Plan.Laws.{
  after_removal, after_update, plan-reaches, update_for, update_backends-lookup,
  remove_backends-lookup,
}
use mlb_controller.Nginx.Plan.Order.{
  in_order-lookup, in_order-IsMap, in_order-IsKeyed, update_backends-IsKeyed, update_backends-IsMap,
  remove_backends-IsKeyed, remove_backends-IsMap,
}
use mlb_controller.Nginx.Plan.Totals.{weight_at, wanted, aggregate-IsKeyed, aggregate-IsMap}
use mlb_controller.Nginx.Sync.{
  Adapter, NginxEnv, NginxError, Answer, answer, failure, Log, list_upstreams, cached, read_clock,
  store_answer, from_cache, refresh_cache, with_state, acquired,
}
use mlb_controller.Nginx.Sync.Served.{
  Served, serve_all, serve_all-append, addr_of, adding, removing, adding-served, removing-served,
}
use mlb_controller.Nginx.Sync.Logs.{planned, apply_plan-log}

-- An addition and a removal of the same key are never planned both.
commuted :
    (o : Option Backend) (u : Option Backend) (w : Option ℤ)
    → (is_some o ≡ true → u ≡ none)
    → after_removal o (after_update u w) ≡ after_update u (after_removal o w)
commuted none u w h = refl
commuted (some b) u w h = rw (h refl) refl

-- The plan leads the servers from the listed weights to the wanted ones.
planned-served :
    (url name : Str) (current backends : List Backend) (st : Served) (b : Backend)
    → st (addr_of b) ≡ weight_at (backend_key b) current
    → serve_all url name
        (planned url name
          (update_backends current (aggregate backends []))
          (remove_backends (aggregate backends []) current []))
        st
        (addr_of b)
      ≡ wanted (backend_key b) backends
planned-served url name current backends st b listed =
    let desired = aggregate backends [] in
    let updates = update_backends current desired in
    let removes = remove_backends desired current [] in
    let keyed = aggregate-IsKeyed backends [] tt in
    let map = aggregate-IsMap backends [] tt in
    let k = backend_key b in
    let update_map = update_backends-IsMap current desired map in
    let remove_map = remove_backends-IsMap desired current [] tt in
    ap (λ f. f (addr_of b))
      (serve_all-append url name (adding url name (in_order updates))
        (removing url name (in_order removes)) st)
    ∙ removing-served url name (in_order removes) _ b
        (in_order-IsKeyed removes (remove_backends-IsKeyed desired current [] tt))
        (in_order-IsMap removes remove_map)
    ∙ ap (after_removal (GoMap.lookup k (in_order removes))) (
        adding-served url name (in_order updates) st b
          (in_order-IsKeyed updates (update_backends-IsKeyed current desired keyed))
          (in_order-IsMap updates update_map))
    ∙ ap (λ o. after_removal o (after_update (GoMap.lookup k (in_order updates)) (st (addr_of b))))
        (in_order-lookup k removes remove_map)
    ∙ ap (λ o. after_removal (GoMap.lookup k removes) (after_update o (st (addr_of b))))
        (in_order-lookup k updates update_map)
    ∙ commuted (GoMap.lookup k removes) (GoMap.lookup k updates) (st (addr_of b))
        (λ h. apart k desired map h)
    ∙ ap (λ w. after_update (GoMap.lookup k updates) (after_removal (GoMap.lookup k removes) w))
        listed
    ∙ plan-reaches k current backends
  where
    removes_eq :
        (k : Str) (desired : GoMap Backend)
        → is_some (GoMap.lookup k (remove_backends desired current []))
          ≡ not (is_some (GoMap.lookup k desired)) && is_some (weight_at k current)
    removes_eq k desired = unfold GoMap.lookup in remove_backends-lookup k desired current []

    apart :
        (k : Str) (desired : GoMap Backend)
        → GoMap.IsMap desired
        → is_some (GoMap.lookup k (remove_backends desired current [])) ≡ true
        → GoMap.lookup k (update_backends current desired) ≡ none
    apart k desired map h = elim (Option-cases (GoMap.lookup k desired)) [
      | inl n ↦ update_backends-lookup k current desired map ∙ ap (update_for current) n
      | inr (db, s) ↦ absurd (ground (arith, h, s, removes_eq k desired))
    ]

-- Reading the listing changes no server.
pub refresh-log :
    (env : NginxEnv) (client url name : Str) (a : Adapter)
    → (sent : Log) × ((refresh_cache env client a).1.log ≡ a.log ++ sent)
      × ((st : Served) → serve_all url name sent st ≡ st)
unfolding refresh_cache
refresh-log env client url name a = go (cached env client a)
  where
    clock : (b : Bool) → (if b then record a { readings = suc a.readings } else a).log ≡ a.log
    clock true = refl
    clock false = refl

    stored : (r : Answer Str × Adapter) → (store_answer env client r).1.log ≡ r.1.log
    stored (failure e, c) = refl
    stored (answer body, c) = refl

    nothing : (b : Bool) (st : Served) → (if b then st else st) ≡ st
    nothing true st = refl
    nothing false st = refl

    go :
        (o : Option (GoMap (List Backend)))
        → (sent : Log) × ((from_cache env client o (read_clock client a)).1.log ≡ a.log ++ sent)
          × ((st : Served) → serve_all url name sent st ≡ st)
    go (some state) =
        ([], clock (is_some (GoMap.lookup client a.cache_exp)) ∙ sym (append_nil a.log), λ st. refl)
    go none = (
      (client, list_upstreams) ∷ [],
      stored _
          ∙ ap (λ log. log ++ (client, list_upstreams) ∷ [])
              (clock (is_some (GoMap.lookup client a.cache_exp))),
      λ st. nothing (client == url) st,
    )

pub never_empty : (errors : List NginxError) (e : NginxError) → errors ++ e ∷ [] ≡ [] → ⊥
never_empty [] e h = cc
never_empty (d ∷ errors) e h = cc

-- The listing that `refreshCache` returns is what a server serves.
abbrev pub IsListed : NginxEnv → Str → Str → Adapter → Served → Type 0
IsListed env url name a start =
    (all : GoMap (List Backend))
    → (refresh_cache env url a).0 ≡ answer all
    → (b : Backend) → start (addr_of b) ≡ weight_at (backend_key b) (current_backends name all)

-- What was sent since then leads a server from what it served to what the backends ask for.
abbrev pub Reaches : Str → Str → List Backend → Served → Log → Type 0
Reaches url name backends start sent =
    (b : Backend) → serve_all url name sent start (addr_of b) ≡ wanted (backend_key b) backends

pub client-Reaches :
    (env : NginxEnv) (url name : Str) (backends : List Backend) (errors : List NginxError)
    (a : Adapter) (start : Served) (o : Answer (Unit {0}))
    → IsListed env url name a start
    → (acquired env url name (aggregate backends []) errors o a).0 ≡ []
    → (sent : Log) × ((acquired env url name (aggregate backends []) errors o a).1.log
        ≡ a.log ++ sent)
      × Reaches url name backends start sent
unfolding acquired with_state
client-Reaches env url name backends errors a start (failure e) listed h =
    absurd (never_empty errors _ h)
client-Reaches env url name backends errors a start (answer u) listed h =
    go (refresh_cache env url a) refl h
  where
    desired : GoMap Backend
    desired = aggregate backends []

    go :
        (r : Answer (GoMap (List Backend)) × Adapter)
        → refresh_cache env url a ≡ r
        → (with_state env url name desired errors r).0 ≡ []
        → (sent : Log) × ((with_state env url name desired errors r).1.log ≡ a.log ++ sent)
          × Reaches url name backends start sent
    go (failure e, c) q k = absurd (never_empty errors e k)
    go (answer all, c) q k =
        let (read, logged, unchanged) = refresh-log env url url name a in
        let current = current_backends name all in
        let plan =
          planned url name (update_backends current desired) (remove_backends desired current []) in
        (
          read ++ plan,
          apply_plan-log env url name (update_backends current desired)
                (remove_backends desired current []) errors c
              ∙ ap (λ log. log ++ plan) (sym (ap (λ r. r.1.log) q) ∙ logged)
              ∙ append_assoc a.log read plan,
          λ b.
              ap (λ f. f (addr_of b))
                (serve_all-append url name read plan start
                  ∙ ap (serve_all url name plan) (unchanged start))
              ∙ planned-served url name current backends start b (listed all (ap (λ r. r.0) q) b),
        )
