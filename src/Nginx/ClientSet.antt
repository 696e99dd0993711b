-- ===== src/Nginx/ClientSet.antt =====
-- `NewNginxClientSet` of internal/adapters/loadbalancer/nginx/client.go and `NewNginxAdapter` of nginx.go
-- beside it. The pools and timeouts of the transport are constants of the code and left out.
use mlb_controller.Base.{
  ℕ, not, ◌&&◌, ◌||◌, List, [], ◌∷◌, ◌++◌, Option, none, some, Str, codes, ◌==◌, str_eq, ltb,
  if◌then◌else◌, is_empty, map,
}
use mlb_controller.Base.Fallible.{Fallible, success, failure, ◌>>=◌}
use mlb_controller.Base.Text.{contains_byte}
use mlb_controller.Base.Decimal.{itoa}
use mlb_controller.Net.Tls.{Tls, X509Certificate}
use mlb_controller.Domain.Config.{NginxConfig, AddressConfig}
use mlb_controller.Nginx.Client.{NginxClient, Transport}

pub data SetupError : Type 0 where
  key_pair_failed : SetupError
  empty_chain : Str → SetupError
  parse_failed : SetupError
  expired : Str → ℕ → SetupError
  ca_failed : SetupError
  invalid_type : Str → SetupError
  clients_failed : Str → SetupError → SetupError

abbrev pub Setup : Type 0 → Type 0
Setup A = Fallible SetupError A

-- The expiry of the first certificate of the chain.
unfoldable pub check_expiry :
    Tls → Str → List Str → Option X509Certificate → Setup (Option (List Str))
check_expiry tls host chain none = failure parse_failed
check_expiry tls host chain (some cert) =
    if ltb cert.not_after tls.now
    then failure (expired host cert.not_after)
    else success (some chain)

unfoldable pub check_chain : Tls → Str → Option (List Str) → Setup (Option (List Str))
unfolding check_expiry
check_chain tls host none = failure key_pair_failed
check_chain tls host (some []) = failure (empty_chain host)
check_chain tls host (some (leaf ∷ chain)) =
    check_expiry tls host (leaf ∷ chain) (tls.parse_certificate leaf)

-- The client certificate, where there is one.
unfoldable pub client_certificate : Tls → NginxConfig → Setup (Option (List Str))
unfolding check_chain
client_certificate tls ngx =
    if ngx.protocol == codes "https" && (not (is_empty ngx.cert) || not (is_empty ngx.key))
    then check_chain tls ngx.hostname (tls.x509_key_pair ngx.cert ngx.key)
    else success none

unfoldable pub root_certificates : Tls → NginxConfig → Setup (Option Str)
root_certificates tls ngx =
    if ngx.protocol == codes "https" && not (is_empty ngx.ca)
    then if tls.append_certs_from_pem ngx.ca then success (some ngx.ca) else failure ca_failed
    else success none

-- net.JoinHostPort
unfoldable pub join_host_port : Str → Str → Str
unfolding contains_byte
join_host_port host port =
    if contains_byte b':' host then (b'[' ∷ host) ++ (b']' ∷ b':' ∷ port) else host ++ (b':' ∷ port)

unfoldable pub base_url : NginxConfig → AddressConfig → Str
unfolding join_host_port itoa
base_url ngx addr = ngx.protocol ++ (codes "://" ++ join_host_port addr.ip (itoa addr.port))

unfoldable pub new_client : NginxConfig → Transport → AddressConfig → NginxClient
unfolding base_url
new_client ngx transport addr = record {
  base_url = base_url ngx addr;
  host = ngx.hostname;
  timeout = ngx.request_timeout;
  transport = transport;
}

unfoldable pub new_nginx_client_set : Tls → NginxConfig → Setup (List NginxClient)
unfolding client_certificate root_certificates new_client
new_nginx_client_set tls ngx = do
  certificate ← client_certificate tls ngx
  root_cas ← root_certificates tls ngx
  let transport : Transport = record {
    server_name = ngx.hostname;
    certificate = certificate;
    root_cas = root_cas;
  }
  success (map (new_client ngx transport) ngx.addresses)

abbrev name_setup : Str → Setup (List NginxClient) → Setup (List NginxClient)
name_setup name (success cs) = success cs
name_setup name (failure e) = failure (clients_failed name e)

-- The clients of a new adapter, whose caches are empty.
unfoldable pub new_nginx_adapter : Tls → NginxConfig → Setup (List NginxClient)
unfolding new_nginx_client_set
new_nginx_adapter tls cfg =
    if not (cfg.lb_type == codes "nginx")
    then failure (invalid_type cfg.lb_type)
    else name_setup cfg.name (new_nginx_client_set tls cfg)
