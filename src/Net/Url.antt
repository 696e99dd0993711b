-- ===== src/Net/Url.antt =====
-- What the validator of NGINX uses of `url.Parse`: for a text that starts with a slash, whether it is
-- parsed without an error into a URL that has a path and no host. Such a text has no scheme.
use mlb_controller.Base.{
  ℕ, Bool, true, not, ◌&&◌, ◌||◌, [], ◌∷◌, Str, codes, ◌==◌, nat_eq, str_eq, leb, ltb,
  if◌then◌else◌, any, all,
}
use mlb_controller.Base.Text.{has_prefix, drop_prefix, ends_with, drop_last}

-- The text before the first `b`, all of it where there is none.
unfoldable pub before : ℕ → Str → Str
before b [] = []
before b (c ∷ s) = let rest = before b s in if c == b then [] else c ∷ rest

-- The text behind the first `b`.
unfoldable pub behind : ℕ → Str → Str
behind b [] = []
behind b (c ∷ s) = let rest = behind b s in if c == b then s else rest

unfoldable pub is_hex : ℕ → Bool
is_hex c = (leb 48 c && leb c 57) || (leb 65 c && leb c 70) || (leb 97 c && leb c 102)

-- `unescape` fails only at a percent sign without two hexadecimal digits behind it.
is_escaped : Str → Bool
unfolding is_hex
is_escaped [] = true
is_escaped (c ∷ []) = not (c == b'%')
is_escaped (c ∷ d ∷ []) = not (c == b'%') && is_escaped (d ∷ [])
is_escaped (c ∷ d ∷ e ∷ s) = (not (c == b'%') || (is_hex d && is_hex e)) && is_escaped (d ∷ e ∷ s)

-- `stringContainsCTLByte`
is_control : ℕ → Bool
is_control c = ltb c 32 || c == 127

-- `validUserinfo`
is_user_byte : ℕ → Bool
is_user_byte c =
    (leb 65 c && leb c 90)
    || (leb 97 c && leb c 122)
    || (leb 48 c && leb c 57)
    || any (λ d. d == c) (codes "-._:~!$&'()*+,;=%@")

-- An authority whose host is empty: a user in front of a last `@`.
is_hostless : Str → Bool
unfolding is_user_byte is_escaped ends_with drop_last
is_hostless authority =
    ends_with b'@' authority
    && all is_user_byte (drop_last authority)
    && is_escaped (drop_last authority)

-- The text between the scheme and the query.
is_hostless_path : Str → Bool
unfolding is_hostless is_escaped before behind has_prefix drop_prefix
is_hostless_path rest =
    if has_prefix rest (codes "//") && not (has_prefix rest (codes "///"))
    then is_hostless (before b'/' (drop_prefix rest (codes "//")))
      && any (λ c. c == b'/') (drop_prefix rest (codes "//"))
      && is_escaped (behind b'/' (drop_prefix rest (codes "//")))
    else is_escaped rest

-- `text` starts with a slash.
unfoldable pub is_path_url : Str → Bool
unfolding is_hostless_path is_control is_escaped before behind
is_path_url text =
    not (any is_control (before b'#' text))
    && is_hostless_path (before b'?' (before b'#' text))
    && is_escaped (behind b'#' text)
