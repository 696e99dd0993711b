-- ===== src/Validator/IpReplacement/Laws.antt =====
-- What the names of an accepted global replacement list refer to.
use mlb_controller.Base.{◌≡◌, refl, sym, ap, ◌∙◌, List, [], ◌∷◌, ◌++◌, Option, none, some, str_eq}
use mlb_controller.Domain.Config.{Config, GlobalIpReplacement, GlobalNetReplacement}
use mlb_controller.Util.Validation.{ValidationError, check_nets, check_ips}
use mlb_controller.Util.Validation.Laws.{AreNets, AreRules, check_nets_sound, check_ips_sound}
use mlb_controller.Validator.LoadBalancer.{nets_of, ips_of}
use mlb_controller.Validator.IpReplacement.{
  GlobalListError, invalid_net_group, invalid_ip_group, check_names, or_next, group_error,
  check_net_groups, check_ip_groups, validate_global_list,
}
use mlb_controller.Validator.IpReplacement.Names.{
  net_names, ip_names, check_names-fresh, nets_of-fresh, ips_of-behind,
}

or_next-none : (a b : Option GlobalListError) → or_next a b ≡ none → (a ≡ none) × (b ≡ none)
or_next-none none b h = (refl, h)
or_next-none (some e) b h = absurd cc

group_error-none :
    (f : ValidationError → GlobalListError) (o : Option ValidationError)
    → group_error f o ≡ none
    → o ≡ none
unfolding group_error
group_error-none f none h = refl
group_error-none f (some e) h = absurd cc

net_group_sound :
    (before : List GlobalNetReplacement) (g : GlobalNetReplacement)
    (after : List GlobalNetReplacement)
    → check_net_groups (before ++ g ∷ after) ≡ none
    → AreNets g.nets
unfolding check_net_groups
net_group_sound [] g after h =
    check_nets_sound g.nets [] g.nets 0 refl refl
      (group_error-none invalid_net_group (check_nets g.nets 0 g.nets) ((or_next-none _ _ h).0))
net_group_sound (b ∷ before) g after h = net_group_sound before g after ((or_next-none _ _ h).1)

ip_group_sound :
    (before : List GlobalIpReplacement) (g : GlobalIpReplacement) (after : List GlobalIpReplacement)
    → check_ip_groups (before ++ g ∷ after) ≡ none
    → AreRules g.ips
unfolding check_ip_groups
ip_group_sound [] g after h =
    let rules =
      check_ips_sound [] g.ips (
        group_error-none (invalid_ip_group g.name) (check_ips [] g.ips) ((or_next-none _ _ h).0)) in
    (rules.0, rules.1)
ip_group_sound (b ∷ before) g after h = ip_group_sound before g after ((or_next-none _ _ h).1)

-- In a global replacement list that `GlobalIPReplacementValidator` accepts, the name of each group of
-- networks refers to exactly the networks of that group, which are valid and do not overlap.
pub accepted_net_group :
    (cfg : Config) (before : List GlobalNetReplacement) (g : GlobalNetReplacement)
    (after : List GlobalNetReplacement)
    → validate_global_list cfg ≡ none
    → cfg.global_ip_replacement_list.net ≡ before ++ g ∷ after
    → (nets_of g.name cfg.global_ip_replacement_list.net ≡ g.nets) × AreNets g.nets
unfolding validate_global_list
accepted_net_group cfg before g after h e =
    let list = cfg.global_ip_replacement_list in
    let (names, groups) = or_next-none (check_names [] list.net list.ip) _ h in
    let fresh = check_names-fresh [] (before ++ g ∷ after) list.ip (rw e at names) in
    (
      ap (nets_of g.name) e ∙ nets_of-fresh [] before g after (ip_names list.ip) fresh,
      net_group_sound before g after (ap check_net_groups (sym e) ∙ (or_next-none _ _ groups).0),
    )

-- In a global replacement list that `GlobalIPReplacementValidator` accepts, the name of each group of
-- rules for single addresses refers to exactly the rules of that group, which are valid and have
-- different sources.
pub accepted_ip_group :
    (cfg : Config) (before : List GlobalIpReplacement) (g : GlobalIpReplacement)
    (after : List GlobalIpReplacement)
    → validate_global_list cfg ≡ none
    → cfg.global_ip_replacement_list.ip ≡ before ++ g ∷ after
    → (ips_of g.name cfg.global_ip_replacement_list.ip ≡ g.ips) × AreRules g.ips
unfolding validate_global_list
accepted_ip_group cfg before g after h e =
    let list = cfg.global_ip_replacement_list in
    let (names, groups) = or_next-none (check_names [] list.net list.ip) _ h in
    let fresh = check_names-fresh [] list.net (before ++ g ∷ after) (rw e at names) in
    (
      ap (ips_of g.name) e ∙ ips_of-behind [] (net_names list.net) before g after fresh,
      ip_group_sound before g after (ap check_ip_groups (sym e) ∙ (or_next-none _ _ groups).1),
    )
