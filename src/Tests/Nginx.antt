-- ===== src/Tests/Nginx.antt =====
-- The NGINX adapter on small answers.
use mlb_controller.Base.{true, ◌≡◌, ◌≢◌, refl, List, [], ◌∷◌, codes, pos, str_eq, str_beq}
use mlb_controller.Base.GoMap
use mlb_controller.Base.GoMap.{GoMap}
use mlb_controller.Domain.Model.{Backend, Upstream}
use mlb_controller.Nginx.Address.{format_server_addr}
use mlb_controller.Nginx.Parse.{parse_bulk_nginx_backends}
use mlb_controller.Nginx.Plan.{aggregate, update_backends, remove_backends}
use mlb_controller.Nginx.Plan.Idle.{sync-idle}
use mlb_controller.Nginx.Sync.{NginxEnv, Adapter, answer}
use mlb_controller.Nginx.Sync.Requests.{OnlyChanges}
use mlb_controller.Nginx.SyncAll.{sync_all_upstreams}
use mlb_controller.Nginx.SyncAll.Changes.{sync_all_upstreams-OnlyChanges, IsOrphan}
use mlb_controller.Nginx.SyncAll.Spared.{sync_all_upstreams-spares}
use mlb_controller.Tests.Fixture.{backend, upstream}

-- Two servers of one upstream, the second with brackets and a weight.
parsed :
    parse_bulk_nginx_backends
      (codes "upstream u {\n server 10.0.0.1:80;\n server [fd00::1]:443 weight=3;\n}\n")
    ≡ (
      codes "u",
      record { ip = codes "10.0.0.1"; port = pos 80; weight = pos 1 }
          ∷ record { ip = codes "[fd00::1]"; port = pos 443; weight = pos 3 }
          ∷ [],
    )
      ∷ []
unfolding parse_bulk_nginx_backends str_beq GoMap.insert GoMap.lookup
parsed = refl

server_addr : format_server_addr (codes "[fd00::1]") (pos 443) ≡ codes "[fd00::1]:443"
unfolding format_server_addr
server_addr = refl

abbrev wanted_servers : List Backend
wanted_servers = backend (codes "10.0.0.1") ∷ backend (codes "10.0.0.1") ∷ []

sync-idle_example :
    (update_backends (GoMap.values (aggregate wanted_servers [])) (aggregate wanted_servers [])
      ≡ [])
    × (remove_backends (aggregate wanted_servers []) (GoMap.values (aggregate wanted_servers [])) []
        ≡ [])
sync-idle_example = sync-idle wanted_servers

-- One server that has an orphan `v` and answers every request.
abbrev pub env : NginxEnv
env = record {
  clients = codes "http://s" ∷ [];
  prune_orphans = true;
  clock = λ n. n;
  acquire = λ url log. answer tt;
  do_request =
      λ log url request. answer (codes "u:\nserver 10.0.0.1:80;\nv:\nserver 10.0.0.2:80;\n");
}

abbrev pub idle : Adapter
idle = record { cache = []; cache_exp = []; log = []; readings = 0 }

abbrev kept : GoMap Upstream
kept = (codes "u", upstream true []) ∷ []

sync_all_upstreams-spares_example :
    OnlyChanges (λ n. n ≢ codes "u") (sync_all_upstreams env kept idle).1
unfolding str_beq
sync_all_upstreams-spares_example =
    sync_all_upstreams-spares env kept (codes "u") (upstream true []) idle (refl, tt)
      (unfold GoMap.lookup in refl, tt) (unfold GoMap.lookup in refl) refl tt

sync_all_upstreams-OnlyChanges_example :
    OnlyChanges (IsOrphan kept) (sync_all_upstreams env kept idle).1
sync_all_upstreams-OnlyChanges_example =
    sync_all_upstreams-OnlyChanges (IsOrphan kept) env kept idle (λ f. cc, tt) (λ p n o. o) tt
