-- ===== src/Tests/Client.antt =====
-- The requests of the NGINX adapter: their paths, and calls with retries.
use mlb_controller.Base.{
  ℕ, zero, suc, ◌≤◌, ◌<◌, ◌≡◌, refl, inl, inr, length, Bool, true, false, List, [], ◌∷◌, ◌++◌,
  Option, none, Str, codes, ℤ, pos, arith,
}
use mlb_controller.Base.Decimal.{itoa}
use mlb_controller.Base.Text.{contains_byte}
use mlb_controller.Net.Query.{parse_query, query_of}
use mlb_controller.Nginx.Paths.{has_query_param, build_add_path, build_remove_path}
use mlb_controller.Nginx.Paths.Pieces.{flag_param}
use mlb_controller.Nginx.Paths.Laws.{target}
use mlb_controller.Nginx.Sync.{add_server, remove_server}
use mlb_controller.Nginx.Wire.{sent_as}
use mlb_controller.Nginx.Wire.Laws.{requests_heard}
use mlb_controller.Domain.Config.{NginxConfig}
use mlb_controller.Tests.Fixture.{nginx_config}
use mlb_controller.Nginx.Client.{
  Http, HttpRequest, NginxClient, Outcome, response, whole, do_request, bytes, take,
}
use mlb_controller.Nginx.Client.Settling.{ten_mib, Answers}
use mlb_controller.Nginx.Client.Laws.{do_request_bounded, do_request_sound, do_request_decided}

abbrev name : Str
name = codes "a&b"

abbrev addr : Str
addr = codes "[::1]:80"

abbrev add_api : Str
add_api = codes "/u?verbose="

abbrev remove_api : Str
remove_api = codes "/u?remove="

-- The name is escaped, and the flag of a removal is there already.
paths_run :
    (build_add_path add_api name addr (pos 3)
      ≡ codes "u?verbose=&upstream=a%26b&server=%5B%3A%3A1%5D%3A80&weight=3&add=")
    × (build_remove_path remove_api name addr
        ≡ codes "u?remove=&upstream=a%26b&server=%5B%3A%3A1%5D%3A80")
unfolding build_add_path build_remove_path mlb_controller.Base.str_beq
paths_run = (refl, refl)

abbrev client : NginxClient
client = record {
  base_url = codes "http://h";
  host = [];
  timeout = pos 1;
  transport = record { server_name = []; certificate = none; root_cas = none };
}

abbrev config : NginxConfig
config = record nginx_config { add_api = add_api; remove_api = remove_api }

requests_heard_example :
    (parse_query (query_of (sent_as config client (add_server name addr (pos 3))).url)
      ≡ parse_query (query_of add_api)
        ++ (target name addr
            ++ ((codes "weight", itoa (pos 3))
                ∷ flag_param (has_query_param add_api (codes "add")) (codes "add"))))
    × (parse_query (query_of (sent_as config client (remove_server name addr)).url)
        ≡ parse_query (query_of remove_api)
          ++ (target name addr
              ++ flag_param (has_query_param remove_api (codes "remove")) (codes "remove")))
unfolding contains_byte
requests_heard_example =
    requests_heard config client name addr (pos 3) refl refl refl refl (omega arith) (omega arith)

-- The first attempt is refused with 503, every later one answers.
abbrev outcome : ℕ → Outcome
outcome zero = response (record { status_code = 503; body = whole [] })
outcome (suc i) = response (record { status_code = 200; body = whole (codes "ok") })

abbrev world : HttpRequest → Http
world request = record { accepts = true; attempt = outcome; cancelled = λ i. false }

second_answers :
    do_request world client (codes "GET") (codes "list")
    ≡ record { reply = bytes (codes "ok"); requests = 2; waited = 100 }
unfolding do_request
second_answers = refl

do_request_bounded_example :
    ((do_request world client (codes "GET") (codes "list")).requests ≤ 3)
    × ((do_request world client (codes "GET") (codes "list")).waited ≤ 700)
do_request_bounded_example = do_request_bounded world client (codes "GET") (codes "list")

do_request_sound_example :
    (length (codes "ok") ≤ ten_mib) × ((j : ℕ) × (j < 3) × Answers (outcome j) (codes "ok"))
unfolding do_request
do_request_sound_example =
    do_request_sound world client (codes "GET") (codes "list") (codes "ok") refl

do_request_decided_example :
    do_request world client (codes "GET") (codes "list")
    ≡ record { reply = bytes (codes "ok"); requests = 2; waited = 100 }
unfolding take
do_request_decided_example =
    do_request_decided world client (codes "GET") (codes "list") 1 (bytes (codes "ok")) refl
      (omega arith) ((λ e. omega (arith, e), inr (inl (omega arith))), refl, tt) (inl (refl, refl))
