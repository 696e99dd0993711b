-- ===== src/Nginx/Paths/Laws.antt =====
-- What a server reads from the paths of the requests.
use mlb_controller.Base.{
  ℕ, ◌<◌, ◌≡◌, refl, sym, ap, ◌∙◌, Bool, true, false, ◌&&◌, ◌||◌, List, [], ◌∷◌, ◌++◌, Option, none,
  some, Str, codes, ℤ, ◌==◌, nat_eq, str_eq, str_beq_iff, any, All, append_nil, if◌then◌else◌,
  arith, Bool-cases, inl, inr,
}
use mlb_controller.Base.Text.{contains_byte}
use mlb_controller.Base.Text.Laws.{contains_byte-append}
use mlb_controller.Base.Decimal.{itoa, is_digit}
use mlb_controller.Base.Decimal.Laws.{itoa-contains_byte}
use mlb_controller.Net.Query.{query_escape, query_unescape, query_of, parse_query, is_unreserved}
use mlb_controller.Net.Query.Escaping.{query_escape-contains_byte}
use mlb_controller.Net.Query.Laws.{parse_query-append, parse_query_piece, IsName}
use mlb_controller.Nginx.Paths.{has_query_param, build_add_path, build_remove_path}
use mlb_controller.Nginx.Paths.Pieces.{
  AreBytes, query_of-join, escaped_piece, number_piece, flag_text, flag_param, parse_query-flag,
}

literals-IsName :
    IsName (codes "upstream")
    × IsName (codes "server")
    × IsName (codes "weight")
    × IsName (codes "add")
    × IsName (codes "remove")
unfolding query_unescape contains_byte mlb_controller.Base.str_beq
literals-IsName = (
  (refl, refl, refl, refl, refl),
  (refl, refl, refl, refl, refl),
  (refl, refl, refl, refl, refl),
  (refl, refl, refl, refl, refl),
  (refl, refl, refl, refl, refl),
)

-- What the server is asked for.
abbrev pub target : Str → Str → List (Str × Str)
target name addr = (codes "upstream", name) ∷ (codes "server", addr) ∷ []

-- The text of a request that goes on with `more` behind the address.
abbrev target_text : Str → Str → Str → Str
target_text name addr more =
    codes "upstream=" ++ (query_escape name ++ (codes "&server=" ++ (query_escape addr ++ more)))

escaped_no_fragment : (s : Str) → AreBytes s → contains_byte b'#' (query_escape s) ≡ false
unfolding is_unreserved
escaped_no_fragment s h = query_escape-contains_byte b'#' s h refl

target_text-no_fragment :
    (name addr more : Str)
    → AreBytes name
    → AreBytes addr
    → contains_byte b'#' more ≡ false
    → contains_byte b'#' (target_text name addr more) ≡ false
unfolding contains_byte
target_text-no_fragment name addr more hn ha hm =
    contains_byte-append b'#' (query_escape name) (codes "&server=" ++ (query_escape addr ++ more))
    ∙ rw (escaped_no_fragment name hn) (
        contains_byte-append b'#' (query_escape addr) more
        ∙ rw (escaped_no_fragment addr ha, hm) refl)

-- With another piece behind the address.
parse_query-target :
    (name addr more : Str)
    → AreBytes name
    → AreBytes addr
    → parse_query (target_text name addr (b'&' ∷ more)) ≡ target name addr ++ parse_query more
parse_query-target name addr more hn ha =
    parse_query-append (codes "upstream" ++ (b'=' ∷ query_escape name))
      (codes "server" ++ (b'=' ∷ query_escape addr) ++ (b'&' ∷ more))
    ∙ rw (escaped_piece (codes "upstream") name literals-IsName.0 hn) (
        ap (λ ps. (codes "upstream", name) ∷ ps)
          (parse_query-append (codes "server" ++ (b'=' ∷ query_escape addr)) more
            ∙ rw (escaped_piece (codes "server") addr literals-IsName.1 ha) refl))

-- With nothing behind the address.
parse_query-target_only :
    (name addr : Str)
    → AreBytes name
    → AreBytes addr
    → parse_query (target_text name addr []) ≡ target name addr
parse_query-target_only name addr hn ha = rw (append_nil (query_escape addr)) (
    parse_query-append (codes "upstream" ++ (b'=' ∷ query_escape name))
      (codes "server" ++ (b'=' ∷ query_escape addr))
    ∙ rw
        (
          escaped_piece (codes "upstream") name literals-IsName.0 hn,
          escaped_piece (codes "server") addr literals-IsName.1 ha,
        )
        refl)

no_value : (name : Str) → IsName name → parse_query (name ++ (b'=' ∷ [])) ≡ (name, []) ∷ []
unfolding contains_byte query_unescape
no_value name n = parse_query_piece name [] [] n refl refl refl

weight_query :
    (there : Bool) (w : ℤ)
    → parse_query (codes "weight=" ++ (itoa w ++ flag_text there (codes "add")))
      ≡ (codes "weight", itoa w) ∷ flag_param there (codes "add")
weight_query there w =
    parse_query-flag there (codes "weight" ++ (b'=' ∷ itoa w)) (codes "add") literals-IsName.3
    ∙ rw (number_piece (codes "weight") w literals-IsName.2) refl

remove_query :
    (there : Bool) (name addr : Str)
    → AreBytes name
    → AreBytes addr
    → parse_query (target_text name addr (flag_text there (codes "remove")))
      ≡ target name addr ++ flag_param there (codes "remove")
remove_query true name addr hn ha = parse_query-target_only name addr hn ha
remove_query false name addr hn ha =
    parse_query-target name addr (codes "remove=") hn ha
    ∙ ap (λ ps. target name addr ++ ps) (no_value (codes "remove") literals-IsName.4)

flag_no_fragment :
    (there : Bool) (name : Str)
    → contains_byte b'#' name ≡ false
    → contains_byte b'#' (flag_text there name) ≡ false
unfolding contains_byte
flag_no_fragment true name h = refl
flag_no_fragment false name h = contains_byte-append b'#' name (b'=' ∷ []) ∙ rw h refl

weight_no_fragment :
    (there : Bool) (w : ℤ)
    → contains_byte b'#' (codes "&weight=" ++ (itoa w ++ flag_text there (codes "add"))) ≡ false
unfolding contains_byte is_digit
weight_no_fragment there w =
    contains_byte-append b'#' (itoa w) (flag_text there (codes "add"))
    ∙ rw (itoa-contains_byte b'#' w refl refl, flag_no_fragment there (codes "add") refl) refl

-- Let the API paths of the configuration have no fragment. From the path of an addition the server
-- reads, after the parameters of the API path, exactly the upstream's name, the server's address and
-- the decimal weight that the adapter was asked to send, whatever bytes the two texts have, and from
-- the path of a removal the name and the address. At the end comes an empty parameter `add` or
-- `remove`, exactly where the API path does not have one.
pub request_paths :
    (add_api remove_api name addr : Str) (w : ℤ)
    → contains_byte b'#' add_api ≡ false
    → contains_byte b'#' remove_api ≡ false
    → AreBytes name
    → AreBytes addr
    → (parse_query (query_of (build_add_path add_api name addr w))
        ≡ parse_query (query_of add_api)
          ++ (target name addr
              ++ ((codes "weight", itoa w)
                  ∷ flag_param (has_query_param add_api (codes "add")) (codes "add"))))
      × (parse_query (query_of (build_remove_path remove_api name addr))
          ≡ parse_query (query_of remove_api)
            ++ (target name addr
                ++ flag_param (has_query_param remove_api (codes "remove")) (codes "remove")))
unfolding build_add_path build_remove_path
request_paths add_api remove_api name addr w ha hr hn hd =
    let adding = has_query_param add_api (codes "add") in
    let removing = has_query_param remove_api (codes "remove") in
    let more = codes "weight=" ++ (itoa w ++ flag_text adding (codes "add")) in
    (
      query_of-join add_api (target_text name addr (b'&' ∷ more)) ha
            (target_text-no_fragment name addr (b'&' ∷ more) hn hd (weight_no_fragment adding w))
          ∙ ap (λ ps. parse_query (query_of add_api) ++ ps)
              (parse_query-target name addr more hn hd
                ∙ ap (λ ps. target name addr ++ ps) (weight_query adding w)),
      query_of-join remove_api (target_text name addr (flag_text removing (codes "remove"))) hr (
            target_text-no_fragment name addr (flag_text removing (codes "remove")) hn hd
              (flag_no_fragment removing (codes "remove") (unfold contains_byte in refl)))
          ∙ ap (λ ps. parse_query (query_of remove_api) ++ ps)
              (remove_query removing name addr hn hd),
    )
