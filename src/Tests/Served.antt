-- ===== src/Tests/Served.antt =====
-- One synchronisation of an upstream, from the server that is listed to the one that is wanted.
use mathlib.Core.Path.{subst}
use mlb_controller.Base.{
  ◌≡◌, refl, sym, ap, ◌∙◌, [], ◌∷◌, ◌++◌, some, none, false, Str, codes, pos, ◌==◌, str_eq,
  if◌then◌else◌,
}
use mlb_controller.Base.GoMap.{GoMap}
use mlb_controller.Base.{List}
use mlb_controller.Domain.Model.{Backend, Upstream}
use mlb_controller.Nginx.Address.{backend_key}
use mlb_controller.Nginx.Plan.{current_backends}
use mlb_controller.Nginx.Plan.Totals.{weight_at}
use mlb_controller.Nginx.Sync.{Log, Answer, answer, refresh_cache, sync_upstream}
use mlb_controller.Nginx.Sync.Served.{Served, addr_of, addr-key}
use mlb_controller.Nginx.Sync.Reaching.{IsListed, Reaches}
use mlb_controller.Nginx.Sync.Clients.{at_turn, sync_upstream-Reaches}
use mlb_controller.Tests.Fixture.{backend, upstream}
use mlb_controller.Tests.Nginx.{env, idle}

abbrev old : Backend
old = backend (codes "10.0.0.1")

abbrev goal : Upstream
goal = upstream false (backend (codes "10.0.0.9") ∷ [])

-- The server serves the address that the listing has.
abbrev before : Served
before = λ x. if addr_of old == x then some (pos 1) else none

abbrev listing : GoMap (List Backend)
listing = (codes "u", old ∷ []) ∷ (codes "v", backend (codes "10.0.0.2") ∷ []) ∷ []

read : (refresh_cache env (codes "http://s") idle).0 ≡ answer listing
unfolding refresh_cache mlb_controller.Base.GoMap.lookup mlb_controller.Base.str_beq
    mlb_controller.Base.GoMap.insert
read = refl

chosen : current_backends (codes "u") listing ≡ old ∷ []
unfolding current_backends mlb_controller.Base.GoMap.lookup mlb_controller.Base.str_beq
chosen = refl

answer-injective :
    {x y : GoMap (List Backend)}
    → ◌≡◌ {A = Answer (GoMap (List Backend))} (answer x) (answer y)
    → x ≡ y
answer-injective h = cc

turn : at_turn env [] goal idle ≡ idle
unfolding sync_upstream
turn = refl

listed : IsListed env (codes "http://s") (codes "u") idle before
listed all h b =
    subst (λ m. before (addr_of b) ≡ weight_at (backend_key b) (current_backends (codes "u") m))
      (answer-injective (sym read ∙ h))
      (ap (λ c. if c then some (pos 1) else none) (addr-key b old)
        ∙ ap (weight_at (backend_key b)) (sym chosen))

no_error : (sync_upstream env goal idle).0 ≡ []
unfolding sync_upstream mlb_controller.Base.GoMap.lookup mlb_controller.Base.str_beq
    mlb_controller.Base.GoMap.insert backend_key mlb_controller.Nginx.Address.same_backend
no_error = refl

sync_upstream-Reaches_example :
    (sent : Log) × ((sync_upstream env goal idle).1.log ≡ (at_turn env [] goal idle).log ++ sent)
    × Reaches (codes "http://s") (codes "u") goal.backends before sent
sync_upstream-Reaches_example =
    sync_upstream-Reaches env [] (codes "http://s") [] goal idle before refl tt
      (subst (λ a. IsListed env (codes "http://s") (codes "u") a before) (sym turn) listed) no_error
