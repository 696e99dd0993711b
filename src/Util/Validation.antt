-- ===== src/Util/Validation.antt =====
-- internal/util/validation.go, without `IsFileExists`, which asks the file system.
pub mod Laws
use mlb_controller.Base.{
  ℕ, suc, ◌+◌, Bool, true, false, not, ◌&&◌, ◌||◌, List, [], ◌∷◌, Option, none, some, Str, ℤ, pos,
  leb_ℤ, ltb_ℤ, ltb, leb, ◌==◌, nat_eq, str_eq, if◌then◌else◌, is_some, is_empty, any, all, length,
}
use mlb_controller.Base.Text.{split}
use mlb_controller.Net.Parse.{parse_ip, to_4}
use mlb_controller.Net.Network.{IpNet, parse_cidr, contains}
use mlb_controller.Domain.Config.{
  IpReplacementList, GlobalIpReplacementList, GlobalIpReplacement, GlobalNetReplacement, IpConfig,
  NetConfig,
}

unfoldable pub is_valid_ip : Str → Bool
is_valid_ip ip = is_some (parse_ip ip)

unfoldable pub is_valid_port : ℤ → Bool
is_valid_port port = leb_ℤ (pos 1) port && leb_ℤ port (pos 65535)

is_letter : ℕ → Bool
is_letter c = (leb 65 c && leb c 90) || (leb 97 c && leb c 122)

is_alnum : ℕ → Bool
unfolding is_letter
is_alnum c = is_letter c || (leb 48 c && leb c 57)

-- [a-zA-Z0-9\-]* and a last [a-zA-Z0-9]
label_rest : Str → Bool
unfolding is_alnum
label_rest [] = false
label_rest (c ∷ []) = is_alnum c
label_rest (c ∷ d ∷ s) = (is_alnum c || c == b'-') && label_rest (d ∷ s)

-- One label before a dot: `[a-zA-Z0-9]([a-zA-Z0-9\-]{0,61}[a-zA-Z0-9])?`
is_label : Str → Bool
unfolding is_alnum label_rest
is_label [] = false
is_label (c ∷ []) = is_alnum c
is_label (c ∷ d ∷ s) = is_alnum c && label_rest (d ∷ s) && leb (length (d ∷ s)) 62

-- `[a-zA-Z]{2,}` at the end, after at least one label with its dot.
domain_labels : List Str → Bool
unfolding is_label is_letter
domain_labels [] = false
domain_labels (s ∷ []) = leb 2 (length s) && all is_letter s
domain_labels (s ∷ t ∷ ss) = is_label s && domain_labels (t ∷ ss)

unfoldable pub is_valid_domain : Str → Bool
unfolding domain_labels split
is_valid_domain hostname =
    not (hostname == [])
    && ltb 1 (length (split b'.' hostname))
    && domain_labels (split b'.' hostname)

networks_overlap : Option IpNet → Option IpNet → Bool
unfolding contains
networks_overlap (some net1) (some net2) = contains net1 net2.ip || contains net2 net1.ip
networks_overlap (some net1) none = false
networks_overlap none o = false

unfoldable pub is_network_overlap : Str → ℤ → Str → ℤ → Bool
unfolding networks_overlap parse_cidr
is_network_overlap ip1 mask1 ip2 mask2 =
    networks_overlap (parse_cidr ip1 mask1) (parse_cidr ip2 mask2)

pub data ValidationError : Type 0 where
  invalid_net_ip : Str → Str → ValidationError
  mask_out_of_range : ℕ → ValidationError
  nets_overlap : NetConfig → NetConfig → ValidationError
  invalid_ip : Str → Str → ValidationError
  duplicate_source : Str → ValidationError
  unknown_global_net : Str → ValidationError
  unknown_global_ip : Str → ValidationError

-- `parsedIP != nil && parsedIP.To4() == nil`
is_v6 : Option (List ℕ) → Bool
unfolding to_4
is_v6 none = false
is_v6 (some ip) = not (is_some (to_4 ip))

unfoldable pub max_mask : NetConfig → ℕ
unfolding is_v6
max_mask n = if is_v6 (parse_ip n.source) then 128 else 32

abbrev pub overlap : NetConfig → NetConfig → Bool
overlap n m = is_network_overlap n.source n.mask m.source m.mask

-- The inner loop: the first other rule whose network overlaps; `j` counts.
find_overlap : NetConfig → ℕ → ℕ → List NetConfig → Option NetConfig
find_overlap n i j [] = none
find_overlap n i j (m ∷ ms) =
    if i == j
    then find_overlap n i (suc j) ms
    else if overlap n m
    then some m
    else find_overlap n i (suc j) ms

no_overlap : NetConfig → Option NetConfig → Option ValidationError
no_overlap n none = none
no_overlap n (some m) = some (nets_overlap n m)

-- One round of the outer loop.
unfoldable pub check_net : List NetConfig → ℕ → NetConfig → Option ValidationError
unfolding find_overlap no_overlap
check_net nets i n =
    if not (is_valid_ip n.source) || not (is_valid_ip n.target)
    then some (invalid_net_ip n.source n.target)
    else if ltb_ℤ n.mask (pos 0) || ltb_ℤ (pos (max_mask n)) n.mask
    then some (mask_out_of_range (max_mask n))
    else no_overlap n (find_overlap n i 0 nets)

-- The first error ends the checks.
abbrev pub or_then : Option ValidationError → Option ValidationError → Option ValidationError
or_then (some e) rest = some e
or_then none rest = rest

unfoldable pub check_nets : List NetConfig → ℕ → List NetConfig → Option ValidationError
check_nets nets i [] = none
check_nets nets i (n ∷ ns) = or_then (check_net nets i n) (check_nets nets (suc i) ns)

-- `seen` is the set `sourceIPs`.
unfoldable pub check_ips : List Str → List IpConfig → Option ValidationError
check_ips seen [] = none
check_ips seen (r ∷ rs) =
    if not (is_valid_ip r.source) || not (is_valid_ip r.target)
    then some (invalid_ip r.source r.target)
    else if any (λ s. s == r.source) seen
    then some (duplicate_source r.source)
    else check_ips (r.source ∷ seen) rs

unfoldable pub check_global_nets : List GlobalNetReplacement → List Str → Option ValidationError
check_global_nets gs [] = none
check_global_nets gs (name ∷ names) =
    if not (any (λ g. g.name == name) gs)
    then some (unknown_global_net name)
    else check_global_nets gs names

unfoldable pub check_global_ips : List GlobalIpReplacement → List Str → Option ValidationError
check_global_ips gs [] = none
check_global_ips gs (name ∷ names) =
    if not (any (λ g. g.name == name) gs)
    then some (unknown_global_ip name)
    else check_global_ips gs names

-- `none` stands for a nil error.
unfoldable pub validate_ip_replacement_list :
    IpReplacementList → GlobalIpReplacementList → Option ValidationError
unfolding check_nets check_ips check_global_nets check_global_ips
validate_ip_replacement_list list global = or_then (check_nets list.nets 0 list.nets) (
    or_then (check_ips [] list.ips) (
      or_then (check_global_nets global.net list.global_nets)
        (check_global_ips global.ip list.global_ips)))
