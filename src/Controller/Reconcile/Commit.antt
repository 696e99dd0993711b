-- ===== src/Controller/Reconcile/Commit.antt =====
-- What `syncSingleLoadBalancer` leaves in `c.state.Upstreams`.
use mlb_controller.Base.{
  Bool, true, false, not, ◌&&◌, ◌≡◌, refl, sym, ap, ◌∙◌, List, [], ◌∷◌, ◌++◌, Option, none, some,
  Str, ◌==◌, str_eq, str_beq_iff, arith, if◌then◌else◌, is_some, any, Bool-cases, inl, inr, length,
  nat_eq,
}
use mlb_controller.Base.GoMap
use mlb_controller.Base.GoMap.{GoMap}
use mlb_controller.Base.Text.{has_prefix, trim_prefix, drop_prefix}
use mlb_controller.Domain.Model.{Upstream}
use mlb_controller.Controller.Env.{Controller, slash, update_backends_total}
use mlb_controller.Controller.Reconcile.{
  forget_stale, forget_stales, store_desired, store_all, commit_upstreams,
}

has_prefix-slash : (lb name : Str) → has_prefix (slash lb name) (slash lb []) ≡ true
unfolding has_prefix slash
has_prefix-slash [] name = ground arith
has_prefix-slash (c ∷ lb) name = ground (arith, has_prefix-slash lb name)

drop_prefix-slash : (lb name : Str) → drop_prefix (slash lb name) (slash lb []) ≡ name
unfolding drop_prefix slash
drop_prefix-slash [] name = refl
drop_prefix-slash (c ∷ lb) name = drop_prefix-slash lb name

trim_prefix-slash : (lb name : Str) → trim_prefix (slash lb name) (slash lb []) ≡ name
unfolding trim_prefix
trim_prefix-slash lb name = rw (has_prefix-slash lb name) (drop_prefix-slash lb name)

slash-injective : (lb n m : Str) → slash lb n ≡ slash lb m → n ≡ m
slash-injective lb n m h =
    sym (drop_prefix-slash lb n) ∙ ap (λ k. drop_prefix k (slash lb [])) h ∙ drop_prefix-slash lb m

slash_beq : (lb n m : Str) → (slash lb n == slash lb m) ≡ (n == m)
slash_beq lb n m = elim (Bool-cases (n == m)) [
  | inl t ↦
      (str_beq_iff (slash lb n) (slash lb m)).1 (ap (slash lb) ((str_beq_iff n m).0 t)) ∙ sym t
  | inr f ↦ elim (Bool-cases (slash lb n == slash lb m)) [
    | inl t ↦ absurd (
        ground (
          arith,
          f,
          (str_beq_iff n m).1
              (slash-injective lb n m ((str_beq_iff (slash lb n) (slash lb m)).0 t)),
        ))
    | inr g ↦ g ∙ sym f
  ]
]

abbrev is_stale : GoMap Upstream → Str → Bool
is_stale desired name = not (is_some (GoMap.lookup name desired))

forget_stale-lookup :
    (lb name : Str) (desired : GoMap Upstream) (key : Str) (c : Controller)
    → GoMap.lookup (slash lb name) (forget_stale lb desired key c).state.upstreams ≡ (
        if key == slash lb name && is_stale desired name
        then none
        else GoMap.lookup (slash lb name) c.state.upstreams)
unfolding forget_stale
forget_stale-lookup lb name desired key c = elim (Bool-cases (key == slash lb name)) [
  | inl t ↦ rw ((str_beq_iff key (slash lb name)).0 t) (
      rw (has_prefix-slash lb name) (
        rw (trim_prefix-slash lb name) (
          rw ((str_beq_iff (slash lb name) (slash lb name)).1 refl)
            (taken (is_stale desired name)))))
  | inr f ↦ rw f (
      untouched f
        (has_prefix key (slash lb []) && is_stale desired (trim_prefix key (slash lb []))))
]
  where
    taken :
        (b : Bool)
        → GoMap.lookup
            (slash lb name)
            (if b
              then record c {
                state = record c.state {
                  upstreams = GoMap.delete (slash lb name) c.state.upstreams;
                };
                effects = c.effects ++ update_backends_total name 0 ∷ [];
              }
              else c).state.upstreams
          ≡ (if b then none else GoMap.lookup (slash lb name) c.state.upstreams)
    taken true =
        GoMap.lookup-delete (slash lb name) (slash lb name) c.state.upstreams
        ∙ rw ((str_beq_iff (slash lb name) (slash lb name)).1 refl) refl
    taken false = refl

    untouched :
        (key == slash lb name) ≡ false
        → (b : Bool)
        → GoMap.lookup
            (slash lb name)
            (if b
              then record c {
                state = record c.state { upstreams = GoMap.delete key c.state.upstreams };
                effects = c.effects ++ update_backends_total (trim_prefix key (slash lb [])) 0 ∷ [];
              }
              else c).state.upstreams
          ≡ GoMap.lookup (slash lb name) c.state.upstreams
    untouched f true = GoMap.lookup-delete key (slash lb name) c.state.upstreams ∙ rw f refl
    untouched f false = refl

forget_stales-lookup :
    (lb name : Str) (desired : GoMap Upstream) (ks : List Str) (c : Controller)
    → GoMap.lookup (slash lb name) (forget_stales lb desired ks c).state.upstreams ≡ (
        if any (λ key. key == slash lb name) ks && is_stale desired name
        then none
        else GoMap.lookup (slash lb name) c.state.upstreams)
unfolding forget_stales
forget_stales-lookup lb name desired [] c = refl
forget_stales-lookup lb name desired (k ∷ ks) c = ground (
  arith,
  forget_stales-lookup lb name desired ks (forget_stale lb desired k c),
  forget_stale-lookup lb name desired k c,
)

any-keys :
    (k : Str) (m : GoMap Upstream) → any (λ j. j == k) (GoMap.keys m) ≡ is_some (GoMap.lookup k m)
unfolding GoMap.keys GoMap.lookup
any-keys k [] = refl
any-keys k ((j, v) ∷ m) = ground (arith, any-keys k m)

-- What becomes of the entry of one upstream: a desired one is stored unless it is preserved.
abbrev stored : Option Upstream → Option Upstream → Option Upstream
stored none old = old
stored (some up) old = if up.preserve_existing_backends then old else some up

abbrev pub committed : Option Upstream → Option Upstream → Option Upstream
committed none old = none
committed (some up) old = if up.preserve_existing_backends then old else some up

store_desired-lookup :
    (lb name n : Str) (up : Upstream) (c : Controller)
    → GoMap.lookup (slash lb name) (store_desired lb n up c).state.upstreams ≡ (
        if n == name
        then stored (some up) (GoMap.lookup (slash lb name) c.state.upstreams)
        else GoMap.lookup (slash lb name) c.state.upstreams)
unfolding store_desired
store_desired-lookup lb name n up c = go up.preserve_existing_backends
  where
    go :
        (b : Bool)
        → GoMap.lookup
            (slash lb name)
            (if not b
              then record c {
                state = record c.state {
                  upstreams = GoMap.insert (slash lb n) up c.state.upstreams;
                };
                effects = c.effects ++ update_backends_total n (length up.backends) ∷ [];
              }
              else c).state.upstreams
          ≡ (if n == name
              then if b then GoMap.lookup (slash lb name) c.state.upstreams else some up
              else GoMap.lookup (slash lb name) c.state.upstreams)
    go true = ground arith
    go false =
        GoMap.lookup-insert (slash lb n) (slash lb name) up c.state.upstreams
        ∙ rw (slash_beq lb n name) refl

store_all-lookup :
    (lb name : Str) (desired : GoMap Upstream) (c : Controller)
    → GoMap.IsMap desired
    → GoMap.lookup (slash lb name) (store_all lb desired c).state.upstreams
      ≡ stored (GoMap.lookup name desired) (GoMap.lookup (slash lb name) c.state.upstreams)
unfolding store_all GoMap.lookup
store_all-lookup lb name [] c h = refl
store_all-lookup lb name ((n, up) ∷ m) c h = elim (Bool-cases (n == name)) [
  | inl t ↦
      store_all-lookup lb name m (store_desired lb n up c) h.1
      ∙ ap (λ o. stored o (GoMap.lookup (slash lb name) (store_desired lb n up c).state.upstreams))
          (missing ((str_beq_iff n name).0 t))
      ∙ store_desired-lookup lb name n up c
      ∙ rw t refl
  | inr f ↦
      store_all-lookup lb name m (store_desired lb n up c) h.1
      ∙ ap (stored (GoMap.lookup name m)) (store_desired-lookup lb name n up c)
      ∙ rw f refl
]
  where
    missing : n ≡ name → GoMap.lookup name m ≡ none
    missing e = ap (λ k. GoMap.lookup k m) (sym e) ∙ h.0

-- After desired upstreams of which no name occurs twice are committed for a load balancer, each entry of `c.state.Upstreams` under the
-- name of that load balancer is the desired upstream, except that a preserved one keeps the entry
-- that was there; an entry that is not desired is gone.
pub commit_upstreams-lookup :
    (lb name : Str) (desired : GoMap Upstream) (c : Controller)
    → GoMap.IsMap desired
    → GoMap.lookup (slash lb name) (commit_upstreams lb desired c).1.state.upstreams
      ≡ committed (GoMap.lookup name desired) (GoMap.lookup (slash lb name) c.state.upstreams)
unfolding commit_upstreams
commit_upstreams-lookup lb name desired c h =
    store_all-lookup lb name desired _ h
    ∙ ap (stored (GoMap.lookup name desired)) (
        forget_stales-lookup lb name desired (GoMap.keys c.state.upstreams) c
        ∙ rw (any-keys (slash lb name) c.state.upstreams) refl)
    ∙ go (GoMap.lookup name desired) (GoMap.lookup (slash lb name) c.state.upstreams)
  where
    go :
        (d old : Option Upstream)
        → stored d (if is_some old && not (is_some d) then none else old) ≡ committed d old
    go none none = refl
    go none (some old) = refl
    go (some up) none = refl
    go (some up) (some old) = refl
