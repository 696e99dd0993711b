-- ===== src/Nginx/SyncAll/Spared.antt =====
-- Which upstreams `SyncAllUpstreams` changes, and which it leaves alone.
use mlb_controller.Base.{
  true, false, ◌≡◌, ◌≢◌, sym, ap, ◌∙◌, inl, inr, [], ◌∷◌, Option, none, some, Str, ◌==◌, str_eq,
  str_beq_iff, All, Bool-cases,
}
use mlb_controller.Base.GoMap
use mlb_controller.Base.GoMap.{GoMap}
use mlb_controller.Domain.Model.{Upstream}
use mlb_controller.Nginx.Sync.{Adapter, NginxEnv}
use mlb_controller.Nginx.Sync.Requests.{OnlyChanges}
use mlb_controller.Nginx.SyncAll.{sync_all_upstreams}
use mlb_controller.Nginx.SyncAll.Changes.{Covers, sync_all_upstreams-OnlyChanges}

-- Each entry stands under the name of its upstream, and no name occurs twice.
abbrev pub IsNamed : GoMap Upstream → Type 0
IsNamed = All λ e. e.0 ≡ e.1.name

some-injective : {u v : Upstream} → some u ≡ some v → u ≡ v
some-injective h = cc

none-ne-some : {u : Upstream} → none ≡ some u → ⊥
none-ne-some h = cc

true-ne-false : true ≡ false → ⊥
true-ne-false h = cc

uncovered :
    (m : GoMap Upstream)
    → IsNamed m
    → (name : Str) → GoMap.lookup name m ≡ none
    → Covers (λ n. n ≢ name) m
unfolding GoMap.lookup
uncovered [] k name l = tt
uncovered ((key, v) ∷ m) k name l = elim (Bool-cases (key == name)) [
  | inl t ↦ absurd (none-ne-some (sym (rw t at l)))
  | inr f ↦ (
    λ g n. true-ne-false (sym ((str_beq_iff key name).1 (k.0 ∙ n)) ∙ f),
    uncovered m k.1 name (rw f at l),
  )
]

others_covered :
    (name : Str) (up : Upstream) (m : GoMap Upstream)
    → IsNamed m
    → GoMap.IsMap m
    → GoMap.lookup name m ≡ some up
    → up.preserve_existing_backends ≡ true
    → Covers (λ n. n ≢ name) m
unfolding GoMap.lookup
others_covered name up [] k d l p = tt
others_covered name up ((key, v) ∷ m) k d l p = elim (Bool-cases (key == name)) [
  | inl t ↦ (
    λ f n. true-ne-false (sym p ∙ ap (λ u. u.preserve_existing_backends) (sym (first t)) ∙ f),
    uncovered m k.1 name (ap (λ j. GoMap.lookup j m) (sym ((str_beq_iff key name).0 t)) ∙ d.0),
  )
  | inr f ↦ (
    λ g n. true-ne-false (sym ((str_beq_iff key name).1 (k.0 ∙ n)) ∙ f),
    others_covered name up m k.1 d.1 (rw f at l) p,
  )
]
  where
    first : (key == name) ≡ true → v ≡ up
    first t = some-injective (rw t at l)

-- Let each desired entry stand under the name of its upstream and no name occur twice. A desired
-- upstream that is marked as preserved gets no request of `SyncAllUpstreams` that adds or removes a
-- server, whatever the servers answer and also where orphans are pruned: where the requests sent
-- before concern other upstreams only, those sent afterwards do so too.
pub sync_all_upstreams-spares :
    (env : NginxEnv) (desired : GoMap Upstream) (name : Str) (up : Upstream) (a : Adapter)
    → IsNamed desired
    → GoMap.IsMap desired
    → GoMap.lookup name desired ≡ some up
    → up.preserve_existing_backends ≡ true
    → OnlyChanges (λ n. n ≢ name) a
    → OnlyChanges (λ n. n ≢ name) (sync_all_upstreams env desired a).1
sync_all_upstreams-spares env desired name up a k d l p o =
    sync_all_upstreams-OnlyChanges (λ n. n ≢ name) env desired a
      (others_covered name up desired k d l p)
      (λ prune n orphan e.
        absurd (impossible (sym orphan.1 ∙ ap (λ j. GoMap.lookup j desired) e ∙ l)))
      o
  where
    impossible : ◌≡◌ {A = Option Upstream} none (some up) → ⊥
    impossible h = cc
