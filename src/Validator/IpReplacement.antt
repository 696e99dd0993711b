-- ===== src/Validator/IpReplacement.antt =====
-- `GlobalIPReplacementValidator` of internal/adapters/validator/ip_replacement.go. The loops over the
-- rules of a group make the same tests as those of internal/util/validation.go.
pub mod Names
pub mod Laws
use mlb_controller.Base.{List, [], ◌∷◌, Option, none, some, Str, ◌==◌, str_eq, if◌then◌else◌, any}
use mlb_controller.Domain.Config.{
  Config, GlobalIpReplacementList, GlobalIpReplacement, GlobalNetReplacement,
}
use mlb_controller.Util.Validation.{ValidationError, check_nets, check_ips}

pub data GlobalListError : Type 0 where
  net_name_required : GlobalListError
  net_name_not_unique : Str → GlobalListError
  ip_name_required : GlobalListError
  ip_name_not_unique : Str → GlobalListError
  invalid_net_group : ValidationError → GlobalListError
  invalid_ip_group : Str → ValidationError → GlobalListError

-- The second loop over the names.
unfoldable pub check_ip_names : List Str → List GlobalIpReplacement → Option GlobalListError
check_ip_names names [] = none
check_ip_names names (g ∷ gs) =
    if g.name == []
    then some ip_name_required
    else if any (λ n. n == g.name) names
    then some (ip_name_not_unique g.name)
    else check_ip_names (g.name ∷ names) gs

-- The first loop, which leaves the set `names` to the second.
unfoldable pub check_names :
    List Str → List GlobalNetReplacement → List GlobalIpReplacement → Option GlobalListError
unfolding check_ip_names
check_names names [] ips = check_ip_names names ips
check_names names (g ∷ gs) ips =
    if g.name == []
    then some net_name_required
    else if any (λ n. n == g.name) names
    then some (net_name_not_unique g.name)
    else check_names (g.name ∷ names) gs ips

-- The first error ends the checks.
abbrev pub or_next : Option GlobalListError → Option GlobalListError → Option GlobalListError
or_next (some e) rest = some e
or_next none rest = rest

unfoldable pub group_error :
    (ValidationError → GlobalListError) → Option ValidationError → Option GlobalListError
group_error f none = none
group_error f (some e) = some (f e)

unfoldable pub check_net_groups : List GlobalNetReplacement → Option GlobalListError
unfolding group_error check_nets
check_net_groups [] = none
check_net_groups (g ∷ gs) =
    or_next (group_error invalid_net_group (check_nets g.nets 0 g.nets)) (check_net_groups gs)

unfoldable pub check_ip_groups : List GlobalIpReplacement → Option GlobalListError
unfolding group_error check_ips
check_ip_groups [] = none
check_ip_groups (g ∷ gs) =
    or_next (group_error (invalid_ip_group g.name) (check_ips [] g.ips)) (check_ip_groups gs)

-- `none` stands for a nil error.
unfoldable pub validate_global_list : Config → Option GlobalListError
unfolding check_names check_net_groups check_ip_groups
validate_global_list cfg =
    let list = cfg.global_ip_replacement_list in
    or_next (check_names [] list.net list.ip)
      (or_next (check_net_groups list.net) (check_ip_groups list.ip))
