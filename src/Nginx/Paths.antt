-- ===== src/Nginx/Paths.antt =====
-- The paths of the requests: `buildAddPath`, `buildRemovePath` and `hasQueryParam` of
-- internal/adapters/loadbalancer/nginx/nginx.go.
pub mod Pieces
pub mod Laws
use mlb_controller.Base.{
  Bool, ◌&&◌, [], ◌∷◌, ◌++◌, Str, codes, ℕ, ℤ, ◌==◌, str_eq, if◌then◌else◌, any,
}
use mlb_controller.Base.Text.{contains_byte, trim_prefix}
use mlb_controller.Base.Decimal.{itoa}
use mlb_controller.Net.Url.{is_path_url}
use mlb_controller.Net.Query.{query_escape, query_of, parse_query, has_param}

-- `rawURL` is an API path of the configuration. `NginxValidator` lets only such texts pass that
-- `is_path_url` accepts, so `url.Parse` fails or succeeds as that test says.
unfoldable pub has_query_param : Str → Str → Bool
unfolding is_path_url parse_query query_of
has_query_param raw_url name =
    is_path_url raw_url && has_param name (parse_query (query_of raw_url))

unfoldable pub delim : Str → ℕ
unfolding contains_byte
delim api = if contains_byte b'?' api then b'&' else b'?'

unfoldable pub build_add_path : Str → Str → Str → ℤ → Str
unfolding delim has_query_param query_escape itoa trim_prefix
build_add_path add_api upstream_name server_addr weight =
    let api = trim_prefix add_api (codes "/") in
    let flag = if has_query_param add_api (codes "add") then [] else codes "&add=" in
    api
    ++ (delim api
        ∷ (codes "upstream="
            ++ (query_escape upstream_name
                ++ (codes "&server="
                    ++ (query_escape server_addr ++ (codes "&weight=" ++ (itoa weight ++ flag)))))))

unfoldable pub build_remove_path : Str → Str → Str → Str
unfolding delim has_query_param query_escape trim_prefix
build_remove_path remove_api upstream_name server_addr =
    let api = trim_prefix remove_api (codes "/") in
    let flag = if has_query_param remove_api (codes "remove") then [] else codes "&remove=" in
    api
    ++ (delim api
        ∷ (codes "upstream="
            ++ (query_escape upstream_name
                ++ (codes "&server=" ++ (query_escape server_addr ++ flag)))))
