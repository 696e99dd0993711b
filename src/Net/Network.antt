-- ===== src/Net/Network.antt =====
-- `net.CIDRMask`, `net.ParseCIDR` and `IPNet.Contains`.
use Prim.Native.Nat.{bit_and}
use mlb_controller.Base.{
  ℕ, zero, suc, ◌-◌, ◌/◌, ◌^◌, Bool, ◌&&◌, List, [], ◌∷◌, Option, none, some, Str, ℤ, pos, negsuc,
  ◌==◌, nat_eq, leb, if◌then◌else◌, length, str_beq,
}
use mlb_controller.Net.Parse.{Addr, v4, v6, parse_addr, to_4, drop}

-- CIDRMask(ones, 8 * n), for `ones` at most `8 * n`.
unfoldable pub cidr_mask : ℕ → ℕ → List ℕ
cidr_mask ones zero = []
cidr_mask ones (suc n) = (if leb 8 ones then 255 else 255 - 255 / 2 ^ ones) ∷ cidr_mask (ones - 8) n

-- ip[i] & m[i] for each byte
unfoldable pub and_bytes : List ℕ → List ℕ → List ℕ
and_bytes [] m = []
and_bytes (b ∷ bs) [] = []
and_bytes (b ∷ bs) (m ∷ ms) = bit_and b m ∷ and_bytes bs ms

pub record IpNet : Type 0 where
  pub ip : List ℕ
  pub mask : List ℕ

-- ParseCIDR(fmt.Sprintf("%s/%d", ip, mask)): a text with another slash is no address either.
masked : Addr → ℕ → Option IpNet
unfolding cidr_mask and_bytes
masked (v4 b) n =
    if leb n 32
    then some (record { ip = and_bytes b (cidr_mask n 4); mask = cidr_mask n 4 })
    else none
masked (v6 b) n =
    if leb n 128
    then some (record { ip = and_bytes b (cidr_mask n 16); mask = cidr_mask n 16 })
    else none

with_mask : Option Addr → ℤ → Option IpNet
unfolding masked
with_mask none m = none
with_mask (some a) (negsuc n) = none
with_mask (some a) (pos n) = masked a n

unfoldable pub parse_cidr : Str → ℤ → Option IpNet
unfolding with_mask
parse_cidr ip mask = with_mask (parse_addr ip) mask

abbrev or_self : List ℕ → Option (List ℕ) → List ℕ
or_self b none = b
or_self b (some four) = four

-- networkNumberAndMask
network_mask : IpNet → List ℕ
network_mask n =
    if length n.mask == 16 && length (or_self n.ip (to_4 n.ip)) == 4 then drop 12 n.mask else n.mask

unfoldable pub contains : IpNet → List ℕ → Bool
unfolding network_mask and_bytes to_4 str_beq
contains n ip =
    let number = or_self n.ip (to_4 n.ip) in
    let x = or_self ip (to_4 ip) in
    length x == length number
    && str_beq (and_bytes number (network_mask n)) (and_bytes x (network_mask n))
