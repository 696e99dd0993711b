-- ===== src/Nginx/Paths/Pieces.antt =====
-- The pieces of the request paths of internal/adapters/loadbalancer/nginx/nginx.go: the API path, the
-- escaped texts, the number and the flag at the end, and what a server reads where they are joined.
use mlb_controller.Base.{
  ℕ, ◌<◌, ◌≡◌, refl, sym, ap, ◌∙◌, Bool, true, false, ◌&&◌, ◌||◌, List, [], ◌∷◌, ◌++◌, Option, none,
  some, Str, codes, ℤ, ◌==◌, nat_eq, str_eq, str_beq_iff, any, All, append_nil, if◌then◌else◌,
  arith, Bool-cases, inl, inr,
}
use mlb_controller.Base.Text.{contains_byte, trim_prefix}
use mlb_controller.Base.Text.Laws.{contains_byte-append}
use mlb_controller.Base.Decimal.{itoa, is_digit}
use mlb_controller.Base.Decimal.Laws.{itoa-contains_byte}
use mlb_controller.Net.Url.{before, behind}
use mlb_controller.Net.Query.{query_escape, query_unescape, query_of, parse_query, is_unreserved}
use mlb_controller.Net.Query.Escaping.{
  query_unescape-query_escape, query_unescape_self, query_escape-contains_byte,
}
use mlb_controller.Net.Query.Laws.{
  parse_query-append, parse_query_piece, IsName, before_absent, behind_absent, behind-append,
  behind_middle,
}
use mlb_controller.Nginx.Paths.{delim}

abbrev pub AreBytes : Str → Type 0
AreBytes = All (λ c. c < 256)

-- Leaving out a leading slash changes no test for another byte.
contains_byte-trim_slash :
    (b : ℕ) (api : Str)
    → (b'/' == b) ≡ false
    → contains_byte b (trim_prefix api (codes "/")) ≡ contains_byte b api
unfolding contains_byte trim_prefix
contains_byte-trim_slash b [] h = refl
contains_byte-trim_slash b (c ∷ s) h = ground arith

pub behind-trim_slash :
    (b : ℕ) (api : Str)
    → (b'/' == b) ≡ false
    → behind b (trim_prefix api (codes "/")) ≡ behind b api
unfolding behind trim_prefix
behind-trim_slash b [] h = refl
behind-trim_slash b (c ∷ s) h = ground arith

no_params : parse_query [] ≡ []
unfolding parse_query mlb_controller.Base.str_beq
no_params = refl

-- The query of an API path without a fragment, followed by more parameters.
pub query_of-join :
    (api q : Str)
    → contains_byte b'#' api ≡ false
    → contains_byte b'#' q ≡ false
    → let path = trim_prefix api (codes "/") in
      parse_query (query_of (path ++ (delim path ∷ q)))
      ≡ parse_query (query_of api) ++ parse_query q
unfolding query_of delim
query_of-join api q h k =
    let path = trim_prefix api (codes "/") in
    let whole : before b'#' (path ++ (delim path ∷ q)) ≡ path ++ (delim path ∷ q) =
      before_absent b'#' _ (no_fragment path (contains_byte-trim_slash b'#' api refl ∙ h)) in
    rw (whole, before_absent b'#' api h)
      (joined path ∙ ap (λ s. parse_query s ++ parse_query q) (behind-trim_slash b'?' api refl))
  where
    no_fragment :
        (path : Str)
        → contains_byte b'#' path ≡ false
        → contains_byte b'#' (path ++ (delim path ∷ q)) ≡ false
    no_fragment path f =
        contains_byte-append b'#' path (delim path ∷ q)
        ∙ unfold contains_byte in ground (arith, f, k)

    joined :
        (path : Str)
        → parse_query (behind b'?' (path ++ (delim path ∷ q)))
          ≡ parse_query (behind b'?' path) ++ parse_query q
    joined path = elim (Bool-cases (contains_byte b'?' path)) [
      | inl t ↦ rw t (
          ap parse_query (behind-append b'?' path (b'&' ∷ q) t)
          ∙ parse_query-append (behind b'?' path) q)
      | inr f ↦ rw (f, behind_middle b'?' path q f, behind_absent b'?' path f, no_params) refl
    ]

pub escaped_piece :
    (name s : Str)
    → IsName name
    → AreBytes s
    → parse_query (name ++ (b'=' ∷ query_escape s)) ≡ (name, s) ∷ []
escaped_piece name s n h =
    parse_query_piece name (query_escape s) s n
      (query_escape-contains_byte b';' s h (unfold is_unreserved in refl))
      (query_escape-contains_byte b'&' s h (unfold is_unreserved in refl))
      (query_unescape-query_escape s h)

pub number_piece :
    (name : Str) (w : ℤ) → IsName name → parse_query (name ++ (b'=' ∷ itoa w)) ≡ (name, itoa w) ∷ []
unfolding is_digit
number_piece name w n =
    parse_query_piece name (itoa w) (itoa w) n (itoa-contains_byte b';' w refl refl)
      (itoa-contains_byte b'&' w refl refl)
      (query_unescape_self (itoa w) (itoa-contains_byte b'%' w refl refl)
        (itoa-contains_byte b'+' w refl refl))

-- The parameter that the path ends with, unless the API path has one of this name.
abbrev pub flag_text : Bool → Str → Str
flag_text there name = if there then [] else b'&' ∷ name ++ (b'=' ∷ [])

abbrev pub flag_param : Bool → Str → List (Str × Str)
flag_param there name = if there then [] else (name, []) ∷ []

pub parse_query-flag :
    (there : Bool) (s name : Str)
    → IsName name
    → parse_query (s ++ flag_text there name) ≡ parse_query s ++ flag_param there name
parse_query-flag true s name n = ap parse_query (append_nil s) ∙ sym (append_nil (parse_query s))
parse_query-flag false s name n =
    parse_query-append s (name ++ (b'=' ∷ []))
    ∙ ap (λ ps. parse_query s ++ ps)
        (parse_query_piece name [] [] n (unfold contains_byte in refl)
          (unfold contains_byte in refl) (unfold query_unescape in refl))
