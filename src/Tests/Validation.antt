-- ===== src/Tests/Validation.antt =====
-- The validation helpers on small inputs.
use mlb_controller.Base.{
  ◌≡◌, refl, Bool, true, false, List, [], ◌∷◌, Option, none, codes, pos, str_eq, ◌++◌,
}
use mlb_controller.Domain.Config.{
  IpReplacementList, GlobalIpReplacementList, GlobalIpReplacement, GlobalNetReplacement, Config,
  LoadBalancerConfig, nginx, get_ip_replacement_list,
}
use mlb_controller.Util.IpReplacement.{apply_ip_replacement}
use mlb_controller.Validator.LoadBalancer.{check_replacement_list}
use mlb_controller.Validator.LoadBalancer.Rules.{rules, accepted_rule-applies}
use mlb_controller.Validator.LoadBalancer.{nets_of, ips_of}
use mlb_controller.Validator.IpReplacement.{validate_global_list}
use mlb_controller.Validator.IpReplacement.Laws.{accepted_net_group}
use mlb_controller.Tests.Fixture.{nginx_config, config}
use mlb_controller.Util.Validation.{
  is_valid_domain, is_valid_port, is_valid_ip, is_network_overlap, validate_ip_replacement_list,
  ValidationError,
}
use mlb_controller.Util.Validation.Laws.{
  AreNets, AreRules, RefersTo, validate_ip_replacement_list_sound,
}

good_domain : is_valid_domain (codes "a-1.example.org") ≡ true
unfolding is_valid_domain mlb_controller.Base.str_beq
good_domain = refl

bad_domain : is_valid_domain (codes "-a.org") ≡ false
unfolding is_valid_domain mlb_controller.Base.str_beq
bad_domain = refl

nested_networks : is_network_overlap (codes "10.0.0.0") (pos 8) (codes "10.1.0.0") (pos 16) ≡ true
unfolding is_network_overlap mlb_controller.Net.Parse.parse_addr
nested_networks = refl

abbrev list : IpReplacementList
list = record {
  nets =
      record { source = codes "10.0.0.0"; target = codes "192.168.0.0"; mask = pos 24 }
      ∷ record { source = codes "10.0.1.0"; target = codes "192.168.1.0"; mask = pos 24 }
      ∷ [];
  ips = record { source = codes "10.0.2.1"; target = codes "1.2.3.4" } ∷ [];
  global_nets = codes "g" ∷ [];
  global_ips = [];
}

abbrev global : GlobalIpReplacementList
global = record { net = record { name = codes "g"; nets = [] } ∷ []; ip = [] }

accepted : validate_ip_replacement_list list global ≡ none
unfolding validate_ip_replacement_list mlb_controller.Util.Validation.check_net is_valid_ip
    mlb_controller.Net.Parse.parse_ip mlb_controller.Util.Validation.max_mask is_network_overlap
accepted = refl

validate_ip_replacement_list_sound_example :
    (AreNets list.nets × AreRules list.ips) × RefersTo list global
validate_ip_replacement_list_sound_example = validate_ip_replacement_list_sound list global accepted

-- An address in a network of the list, with a rule of a global group for it.
abbrev grouped : GlobalIpReplacementList
grouped = record {
  net = record { name = codes "g"; nets = [] } ∷ [];
  ip =
      record {
        name = codes "h";
        ips = record { source = codes "10.0.0.9"; target = codes "8.8.8.8" } ∷ [];
      }
      ∷ [];
}

abbrev replacing : LoadBalancerConfig
replacing =
    nginx
      (record nginx_config { ip_replacement_list = record list { global_ips = codes "h" ∷ [] } })

grouped_accepted :
    check_replacement_list (codes "l") (get_ip_replacement_list replacing) grouped ≡ none
unfolding check_replacement_list validate_ip_replacement_list
    mlb_controller.Util.Validation.check_net is_valid_ip mlb_controller.Net.Parse.parse_ip
    mlb_controller.Util.Validation.max_mask is_network_overlap
grouped_accepted = refl

own_and_global :
    rules (get_ip_replacement_list replacing) grouped
    ≡ (record { source = codes "10.0.2.1"; target = codes "1.2.3.4" } ∷ [])
      ++ record { source = codes "10.0.0.9"; target = codes "8.8.8.8" } ∷ []
unfolding mlb_controller.Validator.LoadBalancer.referenced_ips mlb_controller.Base.str_beq
own_and_global = refl

accepted_rule-applies_example :
    apply_ip_replacement (codes "10.0.0.9") replacing grouped ≡ codes "8.8.8.8"
accepted_rule-applies_example =
    accepted_rule-applies (codes "l") replacing grouped
      (record { source = codes "10.0.2.1"; target = codes "1.2.3.4" } ∷ [])
      (record { source = codes "10.0.0.9"; target = codes "8.8.8.8" }) [] grouped_accepted
      own_and_global

abbrev networks : GlobalNetReplacement
networks = record { name = codes "g"; nets = list.nets }

abbrev addresses : GlobalIpReplacement
addresses = record { name = codes "h"; ips = list.ips }

-- A configuration with two groups of networks and one of addresses.
abbrev global_config : Config
global_config = record config {
  global_ip_replacement_list = record {
    net = record { name = codes "f"; nets = [] } ∷ networks ∷ [];
    ip = addresses ∷ [];
  };
}

global_accepted : validate_global_list global_config ≡ none
unfolding validate_global_list mlb_controller.Util.Validation.check_net is_valid_ip
    mlb_controller.Net.Parse.parse_ip mlb_controller.Util.Validation.max_mask is_network_overlap
    mlb_controller.Base.str_beq
global_accepted = refl

accepted_net_group_example :
    (nets_of networks.name global_config.global_ip_replacement_list.net ≡ networks.nets)
    × AreNets networks.nets
accepted_net_group_example =
    accepted_net_group global_config (record { name = codes "f"; nets = [] } ∷ []) networks []
      global_accepted refl
