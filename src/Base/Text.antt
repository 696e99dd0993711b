-- ===== src/Base/Text.antt =====
-- What the program uses of Go's `strings` package and of `net.SplitHostPort`, over ASCII text.
pub mod Laws
use mathlib.Core.Bool.{Bool, true, false, not, ◌&&◌, ◌||◌}
use mathlib.Core.Option.{Option, none, some}
use mathlib.Core.List.{List, [], ◌∷◌}
use Prim.Native.Nat.{ℕ}
use mlb_controller.Base.Tests.{◌==◌, nat_eq, if◌then◌else◌, ltb, leb}
use mlb_controller.Base.Lists.{is_empty}
use mlb_controller.Base.Bytes.{Str}

-- strings.HasPrefix
unfoldable pub has_prefix : Str → Str → Bool
has_prefix s [] = true
has_prefix [] (p ∷ ps) = false
has_prefix (c ∷ s) (p ∷ ps) = c == p && has_prefix s ps

unfoldable pub drop_prefix : Str → Str → Str
drop_prefix s [] = s
drop_prefix [] (p ∷ ps) = []
drop_prefix (c ∷ s) (p ∷ ps) = drop_prefix s ps

-- strings.TrimPrefix
unfoldable pub trim_prefix : Str → Str → Str
unfolding has_prefix drop_prefix
trim_prefix s p = if has_prefix s p then drop_prefix s p else s

-- strings.HasSuffix(s, c) for a text of one byte.
unfoldable pub ends_with : ℕ → Str → Bool
ends_with b [] = false
ends_with b (c ∷ []) = c == b
ends_with b (c ∷ d ∷ s) = ends_with b (d ∷ s)

unfoldable pub drop_last : Str → Str
drop_last [] = []
drop_last (c ∷ []) = []
drop_last (c ∷ d ∷ s) = c ∷ drop_last (d ∷ s)

-- strings.TrimSuffix(s, c) for a text of one byte.
unfoldable pub trim_suffix : ℕ → Str → Str
unfolding ends_with drop_last
trim_suffix b s = if ends_with b s then drop_last s else s

-- strings.Contains(s, c) for a text of one byte.
unfoldable pub contains_byte : ℕ → Str → Bool
contains_byte b [] = false
contains_byte b (c ∷ s) = c == b || contains_byte b s

unfoldable pub trim_left : (ℕ → Bool) → Str → Str
trim_left p [] = []
trim_left p (c ∷ s) = let rest = trim_left p s in if p c then rest else c ∷ s

unfoldable pub trim_right : (ℕ → Bool) → Str → Str
trim_right p [] = []
trim_right p (c ∷ s) = let rest = trim_right p s in if is_empty rest && p c then [] else c ∷ rest

-- strings.Trim with the set of the bytes that `p` accepts.
unfoldable pub trim : (ℕ → Bool) → Str → Str
unfolding trim_left trim_right
trim p s = trim_right p (trim_left p s)

-- Tab, newline, vertical tab, form feed, carriage return and space.
unfoldable pub is_space : ℕ → Bool
is_space c = (leb 9 c && leb c 13) || c == 32

-- strings.TrimSpace
unfoldable pub trim_space : Str → Str
unfolding trim is_space
trim_space s = trim is_space s

abbrev pub cons_head : ℕ → List Str → List Str
cons_head c [] = (c ∷ []) ∷ []
cons_head c (s ∷ ss) = (c ∷ s) ∷ ss

unfoldable pub split_by : (ℕ → Bool) → Str → List Str
split_by p [] = [] ∷ []
split_by p (c ∷ s) = let rest = split_by p s in if p c then [] ∷ rest else cons_head c rest

-- strings.Split(s, sep) for a separator of one byte.
unfoldable pub split : ℕ → Str → List Str
unfolding split_by
split b s = split_by (λ c. c == b) s

unfoldable pub non_empty : List Str → List Str
non_empty [] = []
non_empty (s ∷ ss) = let rest = non_empty ss in if is_empty s then rest else s ∷ rest

-- strings.Fields
unfoldable pub fields : Str → List Str
unfolding split_by non_empty is_space
fields s = non_empty (split_by is_space s)

-- The text before the first byte `b`, and the text after it.
unfoldable pub cut : ℕ → Str → Option (Str × Str)
cut b [] = none
cut b (c ∷ s) =
    let rest : Option (Str × Str) = elim (cut b s) [
      | none ↦ none
      | some (before, after) ↦ some (c ∷ before, after)
    ] in
    if c == b then some ([], s) else rest

-- The text before the last byte `b`, and the text after it.
unfoldable pub cut_last : ℕ → Str → Option (Str × Str)
cut_last b [] = none
cut_last b (c ∷ s) = elim (cut_last b s) [
  | none ↦ if c == b then some ([], s) else none
  | some (before, after) ↦ some (c ∷ before, after)
]

-- The host inside brackets, with what stands behind the first `]`, up to the port.
bracketed : Str → Option (Str × Str)
unfolding cut contains_byte
bracketed s = elim (cut b']' s) [
  | none ↦ none
  | some (host, []) ↦ none
  | some (host, c ∷ port) ↦
      if c == b':' && not (contains_byte b':' port) then some (host, port) else none
]

plain_host : Option (Str × Str) → Option (Str × Str)
unfolding contains_byte
plain_host none = none
plain_host (some (host, port)) =
    if contains_byte b':' host || contains_byte b'[' host || contains_byte b']' host
    then none
    else some (host, port)

no_brackets : Option (Str × Str) → Option (Str × Str)
unfolding contains_byte
no_brackets none = none
no_brackets (some (host, port)) =
    if contains_byte b'[' host || contains_byte b'[' port || contains_byte b']' port
    then none
    else some (host, port)

-- net.SplitHostPort: the port follows the last colon, and a host with colons stands in brackets.
unfoldable pub split_host_port : Str → Option (Str × Str)
unfolding bracketed plain_host no_brackets cut_last
split_host_port [] = none
split_host_port (c ∷ s) =
    if c == b'['
    then no_brackets (bracketed s)
    else no_brackets (plain_host (cut_last b':' (c ∷ s)))
