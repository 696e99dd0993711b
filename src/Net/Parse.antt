-- ===== src/Net/Parse.antt =====
-- `net.ParseIP`, by `netip.ParseAddr`: IPv4 in dotted decimals, IPv6 in groups of hexadecimals.
use mathlib.Core.Option
use mlb_controller.Base.{
  ℕ, zero, suc, ◌+◌, ◌-◌, ◌*◌, ◌/◌, ◌%◌, Bool, false, not, ◌&&◌, ◌||◌, List, [], ◌∷◌, ◌++◌, Option,
  none, some, Str, ◌==◌, nat_eq, ltb, leb, if◌then◌else◌, length, is_empty, is_some, str_beq,
}
use mlb_controller.Base.Text.{contains_byte, split, has_prefix, drop_prefix}
use mlb_controller.Base.Decimal.{value}

-- The bytes of an address: four of IPv4, or sixteen of IPv6.
pub data Addr : Type 0 where
  v4 : List ℕ → Addr
  v6 : List ℕ → Addr

-- One field of a dotted address: digits, no leading zero, at most 255.
octet : Str → Option ℕ
unfolding value
octet [] = none
octet (c ∷ s) = elim (value 0 (c ∷ s)) [
  | none ↦ none
  | some n ↦ if (c == b'0' && not (is_empty s)) || ltb 255 n then none else some n
]

abbrev cons? : Option ℕ → Option (List ℕ) → Option (List ℕ)
cons? none r = none
cons? (some n) none = none
cons? (some n) (some ns) = some (n ∷ ns)

octets : List Str → Option (List ℕ)
unfolding octet
octets [] = some []
octets (f ∷ fs) = cons? (octet f) (octets fs)

-- parseIPv4Fields
unfoldable pub parse_v4 : Str → Option (List ℕ)
unfolding octets split
parse_v4 s = elim (octets (split b'.' s)) [
  | none ↦ none
  | some ns ↦ if length ns == 4 then some ns else none
]

hex : ℕ → Option ℕ
hex c =
    if leb b'0' c && leb c b'9'
    then some (c - b'0')
    else if leb b'a' c && leb c b'f'
    then some (c - b'a' + 10)
    else if leb b'A' c && leb c b'F'
    then some (c - b'A' + 10)
    else none

-- The leading hexadecimal digits: their number, their value and the rest.
hex_run : ℕ → ℕ → Str → ℕ × ℕ × Str
unfolding hex
hex_run n acc [] = (n, acc, [])
hex_run n acc (c ∷ s) = elim (hex c) [
  | none ↦ (n, acc, c ∷ s)
  | some d ↦ hex_run (n + 1) (acc * 16 + d) s
]

-- The state of the loop of `parseIPv6`: the bytes so far, and the number of bytes before `::`.
pub record Groups : Type 0 where
  pub bytes : List ℕ
  pub ellipsis : Option ℕ

abbrev zeros : ℕ → List ℕ
zeros zero = []
zeros (suc n) = 0 ∷ zeros n

abbrev pub take : ℕ → List ℕ → List ℕ
take zero xs = []
take (suc n) [] = []
take (suc n) (x ∷ xs) = x ∷ take n xs

abbrev pub drop : ℕ → List ℕ → List ℕ
drop zero xs = xs
drop (suc n) [] = []
drop (suc n) (x ∷ xs) = drop n xs

-- The end of the loop: `::` stands for at least one group of zeros.
finish : Groups → Option (List ℕ)
finish g =
    let n = length g.bytes in
    elim g.ellipsis [
      | none ↦ if n == 16 then some g.bytes else none
      | some e ↦
          if ltb n 16 then some (take e g.bytes ++ (zeros (16 - n) ++ drop e g.bytes)) else none
    ]

-- What one round of the loop comes to: a result, or more text to read.
pub data Round : Type 0 where
  finished : Option (List ℕ) → Round
  more : Groups → Str → Round

-- What follows a group: the end, a colon and more, or `::`.
after_group : Groups → Str → Round
unfolding finish
after_group g [] = finished (finish g)
after_group g (c ∷ []) = finished none
after_group g (c ∷ d ∷ r) =
    if not (c == b':')
    then finished none
    else if not (d == b':')
    then more g (d ∷ r)
    else if is_some g.ellipsis
    then finished none
    else if is_empty r
    then finished (finish (record g { ellipsis = some (length g.bytes) }))
    else more (record g { ellipsis = some (length g.bytes) }) r

-- A dotted address at the end fills the last four bytes.
dotted_tail : Groups → Str → Round
unfolding finish
dotted_tail g s =
    if (not (is_some g.ellipsis) && not (length g.bytes == 12)) || ltb 12 (length g.bytes)
    then finished none
    else elim (parse_v4 s) [
      | none ↦ finished none
      | some ns ↦ finished (finish (record g { bytes = g.bytes ++ ns }))
    ]

abbrev starts_with : ℕ → Str → Bool
starts_with b [] = false
starts_with b (c ∷ s) = c == b

one_group : Groups → Str → ℕ × ℕ × Str → Round
unfolding after_group dotted_tail
one_group g s (n, acc, r) =
    if n == 0 || ltb 4 n
    then finished none
    else if starts_with b'.' r
    then dotted_tail g s
    else after_group (record g { bytes = g.bytes ++ (acc / 256) ∷ (acc % 256) ∷ [] }) r

-- The fuel counts the groups that still have room, eight at the start.
parse_groups : ℕ → Groups → Str → Option (List ℕ)
unfolding hex_run finish one_group
parse_groups zero g s = if is_empty s then finish g else none
parse_groups (suc f) g s = elim (one_group g s (hex_run 0 0 s)) [
  | finished r ↦ r
  | more g' s' ↦ parse_groups f g' s'
]

abbrev no_groups : Groups
no_groups = record { bytes = []; ellipsis = none }

-- parseIPv6, without a zone: `net.ParseIP` and `net.ParseCIDR` refuse one.
unfoldable pub parse_v6 : Str → Option (List ℕ)
unfolding parse_groups contains_byte has_prefix drop_prefix
parse_v6 s =
    if contains_byte b'%' s
    then none
    else if has_prefix s (b':' ∷ b':' ∷ [])
    then (let r = drop_prefix s (b':' ∷ b':' ∷ []) in
        if is_empty r
        then some (zeros 16)
        else parse_groups 8 (record { bytes = []; ellipsis = some 0 }) r)
    else parse_groups 8 no_groups s

-- netip.ParseAddr looks for the first of `.`, `:` and `%`.
scan : Str → Str → Option Addr
unfolding parse_v4 parse_v6
scan whole [] = none
scan whole (c ∷ s) =
    if c == b'.'
    then Option.map v4 (parse_v4 whole)
    else if c == b':'
    then Option.map v6 (parse_v6 whole)
    else if c == b'%'
    then none
    else scan whole s

unfoldable pub parse_addr : Str → Option Addr
unfolding scan
parse_addr s = scan s s

-- Addr.As16: an IPv4 address is mapped to IPv6 by the prefix ::ffff.
abbrev pub v4_in_v6_prefix : List ℕ
v4_in_v6_prefix = zeros 10 ++ 255 ∷ 255 ∷ []

abbrev pub as_16 : Addr → List ℕ
as_16 (v4 b) = v4_in_v6_prefix ++ b
as_16 (v6 b) = b

-- net.ParseIP: sixteen bytes, or nil.
unfoldable pub parse_ip : Str → Option (List ℕ)
unfolding parse_addr
parse_ip s = Option.map as_16 (parse_addr s)

-- IP.To4
unfoldable pub to_4 : List ℕ → Option (List ℕ)
unfolding str_beq
to_4 b =
    if length b == 4
    then some b
    else if length b == 16 && str_beq (take 12 b) v4_in_v6_prefix
    then some (drop 12 b)
    else none
