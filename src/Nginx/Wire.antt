-- ===== src/Nginx/Wire.antt =====
-- The HTTP requests of the NGINX adapter: the calls of `doRequest` in
-- internal/adapters/loadbalancer/nginx/nginx.go.
pub mod Laws
use mlb_controller.Base.{Str, codes}
use mlb_controller.Base.Text.{trim_prefix}
use mlb_controller.Domain.Config.{NginxConfig}
use mlb_controller.Nginx.Client.{NginxClient, HttpRequest, new_request}
use mlb_controller.Nginx.Paths.{build_add_path, build_remove_path}
use mlb_controller.Nginx.Sync.{Request, list_upstreams, add_server, remove_server}

unfoldable pub request_path : NginxConfig → Request → Str
unfolding build_add_path build_remove_path trim_prefix
request_path cfg list_upstreams = trim_prefix cfg.list_api (codes "/")
request_path cfg (add_server name addr weight) = build_add_path cfg.add_api name addr weight
request_path cfg (remove_server name addr) = build_remove_path cfg.remove_api name addr

-- The HTTP request that a client makes in each attempt.
unfoldable pub sent_as : NginxConfig → NginxClient → Request → HttpRequest
unfolding request_path new_request
sent_as cfg client r = new_request client (codes "GET") (request_path cfg r)
