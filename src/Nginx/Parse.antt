-- ===== src/Nginx/Parse.antt =====
-- `parseBulkNginxBackends` of internal/adapters/loadbalancer/nginx/nginx.go.
use mlb_controller.Base.{
  Bool, ◌||◌, ◌&&◌, List, [], ◌∷◌, ◌++◌, Option, none, some, Str, codes, ◌==◌, str_eq,
  if◌then◌else◌, ℤ, pos, negsuc, ℕ, ◌-◌, ◌%◌, ◌^◌, ltb, ltb_ℤ,
}
use mlb_controller.Base.GoMap
use mlb_controller.Base.GoMap.{GoMap}
use mlb_controller.Base.Text.{
  has_prefix, trim_prefix, trim_suffix, ends_with, trim_space, split, fields, contains_byte,
  split_host_port,
}
use mlb_controller.Base.Decimal.{atoi}
use mlb_controller.Domain.Model.{Backend}

-- The pattern of the low 32 bits of an `int`.
low32 : ℤ → ℕ
low32 (pos n) = n % 2 ^ 32
low32 (negsuc n) = 2 ^ 32 - 1 - n % 2 ^ 32

-- int32(port), which keeps the low 32 bits.
unfoldable pub to_int32 : ℤ → ℤ
unfolding low32
to_int32 z = if ltb (low32 z) (2 ^ 31) then pos (low32 z) else negsuc (2 ^ 32 - 1 - low32 z)

positive_or_one : Option ℤ → ℤ
positive_or_one none = pos 1
positive_or_one (some w) = if ltb_ℤ (pos 0) w then w else pos 1

-- The first field `weight=` decides, whether its number is valid or not.
unfoldable pub parse_weight : List Str → ℤ
unfolding has_prefix trim_prefix positive_or_one atoi
parse_weight [] = pos 1
parse_weight (f ∷ fs) =
    if has_prefix f (codes "weight=")
    then positive_or_one (atoi (trim_prefix f (codes "weight=")))
    else parse_weight fs

-- Brackets stay around an IPv6 address.
bracket_again : Str → Str → Str
unfolding contains_byte has_prefix
bracket_again host_port host =
    if contains_byte b':' host && has_prefix host_port (b'[' ∷ [])
    then (b'[' ∷ host) ++ (b']' ∷ [])
    else host

with_port : Str → Str → List Str → Option ℤ → Option Backend
unfolding bracket_again to_int32 parse_weight
with_port host_port host rest none = none
with_port host_port host rest (some port) =
    some (record {
      ip = bracket_again host_port host;
      port = to_int32 port;
      weight = parse_weight rest;
    })

with_host : Str → List Str → Option (Str × Str) → Option Backend
unfolding with_port atoi
with_host host_port rest none = none
with_host host_port rest (some (host, port)) = with_port host_port host rest (atoi port)

unfoldable pub parse_fields : List Str → Option Backend
unfolding with_host split_host_port
parse_fields [] = none
parse_fields (host_port ∷ rest) = with_host host_port rest (split_host_port host_port)

-- A line `server host:port weight=w;`, without the surrounding space.
unfoldable pub parse_server : Str → Option Backend
unfolding parse_fields fields trim_suffix trim_space trim_prefix
parse_server line =
    parse_fields (fields (trim_suffix b';' (trim_space (trim_prefix line (codes "server ")))))

unfoldable pub parse_header : Str → Str
unfolding trim_suffix trim_prefix trim_space
parse_header line =
    trim_space (trim_suffix b'{' (trim_prefix (trim_suffix b':' line) (codes "upstream ")))

append_backend : Str → Option Backend → GoMap (List Backend) → GoMap (List Backend)
append_backend name none result = result
append_backend name (some be) result =
    GoMap.insert name (GoMap.index [] name result ++ be ∷ []) result

is_skipped : Str → Bool
unfolding has_prefix
is_skipped line = line == [] || has_prefix line (b'#' ∷ []) || has_prefix line (b'/' ∷ b'/' ∷ [])

is_header : Str → Bool
unfolding ends_with has_prefix
is_header line = ends_with b':' line || has_prefix line (codes "upstream ") || ends_with b'{' line

-- One round of the loop: `currentUpstream` and `result` after a line.
unfoldable pub parse_line : Str → Str × GoMap (List Backend) → Str × GoMap (List Backend)
unfolding is_skipped is_header append_backend parse_server parse_header
parse_line line (current, result) =
    if is_skipped line
    then (current, result)
    else if has_prefix line (codes "server ")
    then (current, append_backend current (parse_server line) result)
    else if is_header line
    then (parse_header line, result)
    else (current, result)

parse_lines : List Str → Str × GoMap (List Backend) → Str × GoMap (List Backend)
unfolding parse_line trim_space
parse_lines [] s = s
parse_lines (line ∷ lines) s = parse_lines lines (parse_line (trim_space line) s)

unfoldable pub parse_bulk_nginx_backends : Str → GoMap (List Backend)
unfolding parse_lines split
parse_bulk_nginx_backends response = (parse_lines (split 10 response) ([], [])).1
