-- ===== src/Nginx/Wire/Laws.antt =====
-- What a server reads from the HTTP requests of the adapter.
use mlb_controller.Base.{
  ℕ, ◌≡◌, refl, ap, ◌∙◌, false, [], ◌∷◌, ◌++◌, Str, codes, ℤ, nat_eq, str_eq, arith,
}
use mlb_controller.Base.Text.{contains_byte, trim_prefix}
use mlb_controller.Base.Decimal.{itoa}
use mlb_controller.Net.Url.{before, behind}
use mlb_controller.Net.Query.{query_of, parse_query}
use mlb_controller.Domain.Config.{NginxConfig}
use mlb_controller.Nginx.Client.{NginxClient, new_request, request_url}
use mlb_controller.Nginx.Paths.{has_query_param, build_add_path, build_remove_path}
use mlb_controller.Nginx.Paths.Pieces.{AreBytes, flag_param, behind-trim_slash}
use mlb_controller.Nginx.Paths.Laws.{target, request_paths}
use mlb_controller.Nginx.Sync.{add_server, remove_server}
use mlb_controller.Nginx.Wire.{request_path, sent_as}

before_prefix :
    (b : ℕ) (base s : Str)
    → contains_byte b base ≡ false
    → before b (base ++ s) ≡ base ++ before b s
unfolding before contains_byte
before_prefix b [] s h = refl
before_prefix b (c ∷ base) s h = ground (arith, before_prefix b base s)

behind_prefix :
    (b : ℕ) (base s : Str) → contains_byte b base ≡ false → behind b (base ++ s) ≡ behind b s
unfolding behind contains_byte
behind_prefix b [] s h = refl
behind_prefix b (c ∷ base) s h = ground (arith, behind_prefix b base s)

before-trim_slash :
    (s : Str) → before b'#' (trim_prefix s (codes "/")) ≡ trim_prefix (before b'#' s) (codes "/")
unfolding before trim_prefix
before-trim_slash [] = refl
before-trim_slash (c ∷ s) = ground arith

-- The URL of a request has the query of its path.
query_of-request_url :
    (base path : Str)
    → contains_byte b'?' base ≡ false
    → contains_byte b'#' base ≡ false
    → query_of (request_url base path) ≡ query_of path
unfolding query_of request_url
query_of-request_url base path q h =
    ap (behind b'?') (before_prefix b'#' base (b'/' ∷ trim_prefix path (codes "/")) h)
    ∙ behind_prefix b'?' base (before b'#' (b'/' ∷ trim_prefix path (codes "/"))) q
    ∙ slash
    ∙ ap (behind b'?') (before-trim_slash path)
    ∙ behind-trim_slash b'?' (before b'#' path) refl
  where
    slash :
        behind b'?' (before b'#' (b'/' ∷ trim_prefix path (codes "/")))
        ≡ behind b'?' (before b'#' (trim_prefix path (codes "/")))
    slash = unfold before behind in refl

-- Let the base URL of the client have no query and no fragment, and the API paths of the
-- configuration no fragment. From the URL of an addition the server reads, after the parameters of the
-- API path, exactly the upstream's name, the server's address and the decimal weight that the adapter
-- was asked to send, whatever bytes the two texts have, and from the URL of a removal the name and the
-- address. At the end comes an empty parameter `add` or `remove`, exactly where the API path does not
-- have one.
pub requests_heard :
    (cfg : NginxConfig) (client : NginxClient) (name addr : Str) (w : ℤ)
    → contains_byte b'?' client.base_url ≡ false
    → contains_byte b'#' client.base_url ≡ false
    → contains_byte b'#' cfg.add_api ≡ false
    → contains_byte b'#' cfg.remove_api ≡ false
    → AreBytes name
    → AreBytes addr
    → (parse_query (query_of (sent_as cfg client (add_server name addr w)).url)
        ≡ parse_query (query_of cfg.add_api)
          ++ (target name addr
              ++ ((codes "weight", itoa w)
                  ∷ flag_param (has_query_param cfg.add_api (codes "add")) (codes "add"))))
      × (parse_query (query_of (sent_as cfg client (remove_server name addr)).url)
          ≡ parse_query (query_of cfg.remove_api)
            ++ (target name addr
                ++ flag_param (has_query_param cfg.remove_api (codes "remove")) (codes "remove")))
unfolding sent_as request_path new_request
requests_heard cfg client name addr w q h ha hr hn hd =
    let (added, removed) = request_paths cfg.add_api cfg.remove_api name addr w ha hr hn hd in
    (
      ap parse_query
            (query_of-request_url client.base_url (build_add_path cfg.add_api name addr w) q h)
          ∙ added,
      ap parse_query
            (query_of-request_url client.base_url (build_remove_path cfg.remove_api name addr) q h)
          ∙ removed,
    )
