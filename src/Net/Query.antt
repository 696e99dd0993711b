-- ===== src/Net/Query.antt =====
-- `url.QueryEscape`, `url.QueryUnescape` and the parameters that `URL.Query` finds, in their order.
pub mod Escaping
pub mod Laws
use mlb_controller.Base.{
  ℕ, ◌+◌, ◌-◌, ◌*◌, ◌/◌, ◌%◌, Bool, true, false, not, ◌&&◌, ◌||◌, List, [], ◌∷◌, ◌++◌, Option, none,
  some, Str, codes, ◌==◌, nat_eq, str_eq, leb, ltb, if◌then◌else◌, any,
}
use mlb_controller.Base.Text.{contains_byte, split}
use mlb_controller.Net.Url.{before, behind, is_hex}

-- The bytes that `shouldEscape` leaves as they are in a query component.
unfoldable pub is_unreserved : ℕ → Bool
is_unreserved c =
    (leb 97 c && leb c 122)
    || (leb 65 c && leb c 90)
    || (leb 48 c && leb c 57)
    || c == b'-'
    || c == b'_'
    || c == b'.'
    || c == b'~'

unfoldable pub upper_hex : ℕ → ℕ
upper_hex d = if ltb d 10 then 48 + d else 55 + d

unfoldable pub escape_byte : ℕ → Str
unfolding is_unreserved upper_hex
escape_byte c =
    if is_unreserved c
    then c ∷ []
    else if c == b' '
    then b'+' ∷ []
    else b'%' ∷ upper_hex (c / 16) ∷ upper_hex (c % 16) ∷ []

-- url.QueryEscape
unfoldable pub query_escape : Str → Str
unfolding escape_byte
query_escape [] = []
query_escape (c ∷ s) = escape_byte c ++ query_escape s

unfoldable pub of_hex : ℕ → ℕ
of_hex c = if leb c 57 then c - 48 else if leb c 70 then c - 55 else c - 87

abbrev pub prepend : ℕ → Option Str → Option Str
prepend c none = none
prepend c (some s) = some (c ∷ s)

abbrev pub plain : ℕ → ℕ
plain c = if c == b'+' then b' ' else c

-- url.QueryUnescape
unfoldable pub query_unescape : Str → Option Str
unfolding is_hex of_hex
query_unescape [] = some []
query_unescape (c ∷ []) = if c == b'%' then none else some (plain c ∷ [])
query_unescape (c ∷ d ∷ []) =
    let rest = query_unescape (d ∷ []) in if c == b'%' then none else prepend (plain c) rest
query_unescape (c ∷ d ∷ e ∷ s) = elim (c == b'%') [
  | true ↦
      if is_hex d && is_hex e then prepend (of_hex d * 16 + of_hex e) (query_unescape s) else none
  | false ↦ prepend (plain c) (query_unescape (d ∷ e ∷ s))
]

-- A name and a value, unless one of them is badly escaped.
abbrev pub pair : Option Str → Option Str → Option (Str × Str)
pair none v = none
pair (some k) none = none
pair (some k) (some v) = some (k, v)

-- One piece between ampersands. A piece with a semicolon and an empty one are passed over.
unfoldable pub param : Str → Option (Str × Str)
unfolding query_unescape before behind contains_byte
param s =
    if contains_byte b';' s || s == []
    then none
    else pair (query_unescape (before b'=' s)) (query_unescape (behind b'=' s))

abbrev pub with_param : Option (Str × Str) → List (Str × Str) → List (Str × Str)
with_param none rest = rest
with_param (some p) rest = p ∷ rest

unfoldable pub collect : List Str → List (Str × Str)
unfolding param
collect [] = []
collect (s ∷ ss) = with_param (param s) (collect ss)

unfoldable pub parse_query : Str → List (Str × Str)
unfolding collect split
parse_query q = collect (split b'&' q)

-- The text between the first question mark and the fragment.
unfoldable pub query_of : Str → Str
unfolding before behind
query_of text = behind b'?' (before b'#' text)

-- Values.Has
abbrev pub has_param : Str → List (Str × Str) → Bool
has_param name ps = any (λ p. p.0 == name) ps
