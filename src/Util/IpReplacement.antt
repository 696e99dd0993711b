-- ===== src/Util/IpReplacement.antt =====
-- internal/util/ip_replacement.go
pub mod Mixing
use Prim.Native.Nat.{bit_and, bit_or}
use mlb_controller.Base.{
  ℕ, suc, ◌-◌, ◌*◌, Bool, true, false, not, ◌&&◌, ◌||◌, List, [], ◌∷◌, Option, none, some, Str, ℤ,
  pos, negsuc, ◌==◌, nat_eq, str_eq, ltb, if◌then◌else◌, length, is_some,
}
use mlb_controller.Net.Parse.{parse_ip, to_4}
use mlb_controller.Net.Print.{ip_string}
use mlb_controller.Net.Network.{parse_cidr, contains, cidr_mask, and_bytes}
use mlb_controller.Domain.Config.{
  LoadBalancerConfig, get_ip_replacement_list, IpReplacementList, GlobalIpReplacementList,
  GlobalIpReplacement, GlobalNetReplacement, IpConfig, NetConfig,
}

unfoldable pub is_ip_in_net : Str → Str → ℤ → Bool
is_ip_in_net ip net_ip mask = elim (parse_ip ip) [
  | none ↦ false
  | some parsed ↦ elim (parse_cidr net_ip mask) [ none ↦ false | some net ↦ contains net parsed ]
]

-- host[i] = ip[i] & ^maskBytes[i]
unfoldable pub host_bytes : List ℕ → List ℕ → List ℕ
host_bytes [] ms = []
host_bytes (b ∷ bs) [] = []
host_bytes (b ∷ bs) (m ∷ ms) = bit_and b (255 - m) ∷ host_bytes bs ms

or_bytes : List ℕ → List ℕ → List ℕ
or_bytes [] hs = []
or_bytes (b ∷ bs) [] = []
or_bytes (b ∷ bs) (h ∷ hs) = bit_or b h ∷ or_bytes bs hs

-- result[i] = (dst[i] & maskBytes[i]) | host[i]
unfoldable pub replace_bytes : List ℕ → List ℕ → List ℕ → List ℕ
unfolding host_bytes or_bytes and_bytes
replace_bytes ip dst mask = or_bytes (and_bytes dst mask) (host_bytes ip mask)

-- The part of `replaceInNet` behind the choice of IPv4 or IPv6; `n` is the number of bytes.
replace_parsed : Str → List ℕ → List ℕ → ℕ → ℤ → Str
unfolding replace_bytes
replace_parsed text ip dst n (negsuc m) = text
replace_parsed text ip dst n (pos m) =
    if ltb (8 * n) m
    then text
    else if not (length ip == n) || not (length dst == n)
    then text
    else ip_string (replace_bytes ip dst (cidr_mask m n))

pick_family : Str → List ℕ → List ℕ → Option (List ℕ) → Option (List ℕ) → Option (List ℕ) → ℤ → Str
unfolding replace_parsed
pick_family text ip dst (some ip4) (some src4) (some dst4) mask =
    replace_parsed text ip4 dst4 4 mask
pick_family text ip dst (some ip4) (some src4) none mask = replace_parsed text ip dst 16 mask
pick_family text ip dst (some ip4) none dst4 mask = replace_parsed text ip dst 16 mask
pick_family text ip dst none src4 dst4 mask = replace_parsed text ip dst 16 mask

replace_found : Str → Option (List ℕ) → Option (List ℕ) → Option (List ℕ) → ℤ → Str
unfolding pick_family
replace_found text (some ip) (some src) (some dst) mask =
    pick_family text ip dst (to_4 ip) (to_4 src) (to_4 dst) mask
replace_found text (some ip) (some src) none mask = text
replace_found text (some ip) none dst mask = text
replace_found text none src dst mask = text

unfoldable pub replace_in_net : Str → Str → Str → ℤ → Str
unfolding replace_found
replace_in_net ip source target mask =
    replace_found ip (parse_ip ip) (parse_ip source) (parse_ip target) mask

-- The first rule for the address itself.
unfoldable pub find_ip : Str → List IpConfig → Option Str
find_ip node_ip [] = none
find_ip node_ip (r ∷ rs) = if r.source == node_ip then some r.target else find_ip node_ip rs

unfoldable pub find_net : Str → List NetConfig → Option Str
find_net node_ip [] = none
find_net node_ip (r ∷ rs) =
    if is_ip_in_net node_ip r.source r.mask
    then some (replace_in_net node_ip r.source r.target r.mask)
    else find_net node_ip rs

abbrev pub or_else : Option Str → Option Str → Option Str
or_else (some s) o = some s
or_else none o = o

-- The loop over the global groups of one name.
unfoldable pub find_ip_group : Str → Str → List GlobalIpReplacement → Option Str
unfolding find_ip
find_ip_group node_ip name [] = none
find_ip_group node_ip name (g ∷ gs) =
    or_else (if g.name == name then find_ip node_ip g.ips else none) (find_ip_group node_ip name gs)

unfoldable pub find_global_ip : Str → List Str → List GlobalIpReplacement → Option Str
unfolding find_ip_group
find_global_ip node_ip [] gs = none
find_global_ip node_ip (name ∷ names) gs =
    or_else (find_ip_group node_ip name gs) (find_global_ip node_ip names gs)

find_net_group : Str → Str → List GlobalNetReplacement → Option Str
unfolding find_net
find_net_group node_ip name [] = none
find_net_group node_ip name (g ∷ gs) =
    or_else (if g.name == name then find_net node_ip g.nets else none)
      (find_net_group node_ip name gs)

unfoldable pub find_global_net : Str → List Str → List GlobalNetReplacement → Option Str
unfolding find_net_group
find_global_net node_ip [] gs = none
find_global_net node_ip (name ∷ names) gs =
    or_else (find_net_group node_ip name gs) (find_global_net node_ip names gs)

abbrev or_unchanged : Str → Option Str → Str
or_unchanged s none = s
or_unchanged s (some t) = t

-- IPs, then global IPs, then nets, then global nets; without a rule the address stays.
unfoldable pub apply_ip_replacement : Str → LoadBalancerConfig → GlobalIpReplacementList → Str
apply_ip_replacement node_ip lb global =
    let list = get_ip_replacement_list lb in
    or_unchanged node_ip (
      or_else (find_ip node_ip list.ips) (
        or_else (find_global_ip node_ip list.global_ips global.ip) (
          or_else (find_net node_ip list.nets)
            (find_global_net node_ip list.global_nets global.net))))
