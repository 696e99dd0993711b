-- ===== src/Validator/LoadBalancer.antt =====
-- `LoadBalancerValidator` of internal/adapters/validator/loadbalancer.go.
pub mod Laws
pub mod Rules
use mlb_controller.Base.{
  Bool, true, false, not, ◌&&◌, ◌||◌, List, [], ◌∷◌, ◌++◌, Option, none, some, Str, ℤ, ◌==◌, str_eq,
  if◌then◌else◌, is_empty, any,
}
use mlb_controller.Domain.Config.{
  Config, LoadBalancerConfig, get_name, get_host_name, get_addresses, get_ip_replacement,
  get_ip_replacement_list, get_default_backend, AddressConfig, DefaultBackendConfig,
  IpReplacementList, GlobalIpReplacementList, GlobalIpReplacement, GlobalNetReplacement, NetConfig,
  IpConfig,
}
use mlb_controller.Util.Validation.{
  ValidationError, is_valid_ip, is_valid_port, is_valid_domain, overlap,
  validate_ip_replacement_list,
}

pub data LoadBalancerError : Type 0 where
  name_required : LoadBalancerError
  name_not_unique : Str → LoadBalancerError
  invalid_hostname : Str → Str → LoadBalancerError
  invalid_address : Str → Str → LoadBalancerError
  invalid_address_port : Str → ℤ → LoadBalancerError
  empty_replacement_list : Str → LoadBalancerError
  invalid_replacement_list : Str → ValidationError → LoadBalancerError
  global_nets_overlap : NetConfig → NetConfig → LoadBalancerError
  global_and_local_overlap : NetConfig → NetConfig → LoadBalancerError
  duplicate_global_source : Str → LoadBalancerError
  global_and_local_source : Str → LoadBalancerError
  invalid_default_ip : Str → Str → LoadBalancerError
  invalid_default_port : Str → ℤ → LoadBalancerError

abbrev pub or_then : Option LoadBalancerError → Option LoadBalancerError → Option LoadBalancerError
or_then (some e) rest = some e
or_then none rest = rest

unfoldable pub validate_addresses : Str → List AddressConfig → Option LoadBalancerError
validate_addresses name [] = none
validate_addresses name (a ∷ rest) =
    if not (is_valid_ip a.ip)
    then some (invalid_address name a.ip)
    else if not (is_valid_port a.port)
    then some (invalid_address_port name a.port)
    else validate_addresses name rest

-- The networks of the groups of one name, then of all names.
unfoldable pub nets_of : Str → List GlobalNetReplacement → List NetConfig
nets_of name [] = []
nets_of name (g ∷ gs) =
    let rest = nets_of name gs in if g.name == name then g.nets ++ rest else rest

unfoldable pub referenced_nets : List Str → List GlobalNetReplacement → List NetConfig
unfolding nets_of
referenced_nets [] gs = []
referenced_nets (name ∷ names) gs = nets_of name gs ++ referenced_nets names gs

first_overlap : NetConfig → List NetConfig → Option NetConfig
first_overlap n [] = none
first_overlap n (m ∷ ms) = if overlap n m then some m else first_overlap n ms

overlap_error : (NetConfig → LoadBalancerError) → Option NetConfig → Option LoadBalancerError
overlap_error f none = none
overlap_error f (some m) = some (f m)

-- The loop over the referenced networks: against the later ones, then against the own ones.
unfoldable pub check_referenced_nets : List NetConfig → List NetConfig → Option LoadBalancerError
unfolding first_overlap overlap_error
check_referenced_nets local [] = none
check_referenced_nets local (n ∷ ns) =
    or_then (overlap_error (global_nets_overlap n) (first_overlap n ns)) (
      or_then (overlap_error (global_and_local_overlap n) (first_overlap n local))
        (check_referenced_nets local ns))

unfoldable pub ips_of : Str → List GlobalIpReplacement → List IpConfig
ips_of name [] = []
ips_of name (g ∷ gs) = let rest = ips_of name gs in if g.name == name then g.ips ++ rest else rest

-- The rules in the order in which the nested loops meet them.
unfoldable pub referenced_ips : List Str → List GlobalIpReplacement → List IpConfig
unfolding ips_of
referenced_ips [] gs = []
referenced_ips (name ∷ names) gs = ips_of name gs ++ referenced_ips names gs

-- `seen` is the set `referencedIPs`.
unfoldable pub check_referenced_ips :
    List IpConfig → List Str → List IpConfig → Option LoadBalancerError
check_referenced_ips local seen [] = none
check_referenced_ips local seen (r ∷ rs) =
    if any (λ s. s == r.source) seen
    then some (duplicate_global_source r.source)
    else if any (λ l. r.source == l.source) local
    then some (global_and_local_source r.source)
    else check_referenced_ips local (r.source ∷ seen) rs

unfoldable pub list_error : Str → Option ValidationError → Option LoadBalancerError
list_error name none = none
list_error name (some e) = some (invalid_replacement_list name e)

unfoldable pub check_replacement_list :
    Str → IpReplacementList → GlobalIpReplacementList → Option LoadBalancerError
unfolding list_error referenced_nets check_referenced_nets referenced_ips check_referenced_ips
check_replacement_list name list global =
    or_then (list_error name (validate_ip_replacement_list list global)) (
      or_then (check_referenced_nets list.nets (referenced_nets list.global_nets global.net))
        (check_referenced_ips list.ips [] (referenced_ips list.global_ips global.ip)))

is_list_empty : IpReplacementList → Bool
is_list_empty l =
    is_empty l.global_ips && is_empty l.global_nets && is_empty l.nets && is_empty l.ips

check_replacement :
    Bool → Str → IpReplacementList → GlobalIpReplacementList → Option LoadBalancerError
unfolding is_list_empty check_replacement_list
check_replacement false name list global = none
check_replacement true name list global =
    if is_list_empty list
    then some (empty_replacement_list name)
    else check_replacement_list name list global

check_default : Str → Option DefaultBackendConfig → Option LoadBalancerError
check_default name none = none
check_default name (some d) =
    if not (is_valid_ip d.ip)
    then some (invalid_default_ip name d.ip)
    else if not (is_valid_port d.port)
    then some (invalid_default_port name d.port)
    else none

check_hostname : Str → Str → Option LoadBalancerError
check_hostname name host =
    if not (host == []) && not (is_valid_domain host)
    then some (invalid_hostname name host)
    else none

-- The checks of one load balancer behind that of its name.
unfoldable pub check_load_balancer :
    GlobalIpReplacementList → LoadBalancerConfig → Option LoadBalancerError
unfolding check_hostname validate_addresses check_replacement check_default
check_load_balancer global lb = or_then (check_hostname (get_name lb) (get_host_name lb)) (
    or_then (validate_addresses (get_name lb) (get_addresses lb)) (
      or_then
        (check_replacement (get_ip_replacement lb) (get_name lb) (get_ip_replacement_list lb)
          global)
        (check_default (get_name lb) (get_default_backend lb))))

-- The loop; `names` is the set of the names so far.
unfoldable pub check_load_balancers :
    GlobalIpReplacementList → List Str → List LoadBalancerConfig → Option LoadBalancerError
unfolding check_load_balancer
check_load_balancers global names [] = none
check_load_balancers global names (lb ∷ lbs) =
    if get_name lb == []
    then some name_required
    else if any (λ n. n == get_name lb) names
    then some (name_not_unique (get_name lb))
    else or_then (check_load_balancer global lb)
        (check_load_balancers global (get_name lb ∷ names) lbs)

-- `none` stands for a nil error.
unfoldable pub validate_load_balancers : Config → Option LoadBalancerError
unfolding check_load_balancers
validate_load_balancers cfg =
    check_load_balancers cfg.global_ip_replacement_list [] cfg.load_balancers
