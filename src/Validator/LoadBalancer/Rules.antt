-- ===== src/Validator/LoadBalancer/Rules.antt =====
-- The rules for single addresses that an accepted replacement list gives a load balancer.
use mathlib.Core.Path.{subst}
use mlb_controller.Base.{
  ◌≡◌, ◌≢◌, refl, sym, ap, ◌∙◌, false, List, [], ◌∷◌, ◌++◌, Option, none, some, Str, ◌==◌, str_eq,
  str_beq_iff, any, All, All-append, arith, Bool-cases, inl, inr,
}
use mlb_controller.Domain.Config.{
  LoadBalancerConfig, get_ip_replacement_list, IpReplacementList, GlobalIpReplacementList,
  GlobalIpReplacement, IpConfig,
}
use mlb_controller.Util.IpReplacement.{
  find_ip, find_ip_group, find_global_ip, or_else, apply_ip_replacement,
}
use mlb_controller.Util.Validation.{ValidationError, validate_ip_replacement_list}
use mlb_controller.Util.Validation.Laws.{
  HaveDistinctSources, weaken, validate_ip_replacement_list_sound,
}
use mlb_controller.Validator.LoadBalancer.{
  LoadBalancerError, or_then, list_error, ips_of, referenced_ips, check_referenced_nets,
  check_referenced_ips, check_replacement_list,
}

find_ip-append :
    (a : Str) (xs ys : List IpConfig) → find_ip a (xs ++ ys) ≡ or_else (find_ip a xs) (find_ip a ys)
unfolding find_ip
find_ip-append a [] ys = refl
find_ip-append a (r ∷ xs) ys = elim (Bool-cases (r.source == a)) [
  | inl t ↦ rw t refl
  | inr f ↦ rw f (find_ip-append a xs ys)
]

find_ip_group-eq :
    (a name : Str) (gs : List GlobalIpReplacement)
    → find_ip_group a name gs ≡ find_ip a (ips_of name gs)
unfolding find_ip_group ips_of find_ip
find_ip_group-eq a name [] = refl
find_ip_group-eq a name (g ∷ gs) = elim (Bool-cases (g.name == name)) [
  | inl t ↦ rw t (
      ap (or_else (find_ip a g.ips)) (find_ip_group-eq a name gs)
      ∙ sym (find_ip-append a g.ips (ips_of name gs)))
  | inr f ↦ rw f (find_ip_group-eq a name gs)
]

find_global_ip-eq :
    (a : Str) (names : List Str) (gs : List GlobalIpReplacement)
    → find_global_ip a names gs ≡ find_ip a (referenced_ips names gs)
unfolding find_global_ip referenced_ips find_ip
find_global_ip-eq a [] gs = refl
find_global_ip-eq a (name ∷ names) gs =
    rw (find_ip_group-eq a name gs, find_global_ip-eq a names gs)
      (sym (find_ip-append a (ips_of name gs) (referenced_ips names gs)))

-- Each rule before `r` is for another address.
sources_before :
    (before : List IpConfig) (r : IpConfig) (after : List IpConfig)
    → HaveDistinctSources (before ++ r ∷ after)
    → find_ip r.source (before ++ r ∷ after) ≡ some r.target
unfolding find_ip
sources_before [] r after d = rw ((str_beq_iff r.source r.source).1 refl) refl
sources_before (b ∷ before) r after d = elim (Bool-cases (b.source == r.source)) [
  | inl t ↦ absurd (at_r before d.0 (sym ((str_beq_iff b.source r.source).0 t)))
  | inr f ↦ rw f (sources_before before r after d.1)
]
  where
    at_r :
        (xs : List IpConfig)
        → All (λ q. q.source ≢ b.source) (xs ++ r ∷ after)
        → r.source ≢ b.source
    at_r [] h = h.0
    at_r (x ∷ xs) h = at_r xs h.1

-- No rule is for an address that one of the own rules is for.
abbrev AreForeign : List IpConfig → List IpConfig → Type 0
AreForeign local rs = All (λ q. any (λ l. q.source == l.source) local ≡ false) rs

check_referenced_ips_sound :
    (local : List IpConfig) (seen : List Str) (rs : List IpConfig)
    → check_referenced_ips local seen rs ≡ none
    → HaveDistinctSources rs
      × AreForeign local rs
      × All (λ r. any (λ t. t == r.source) seen ≡ false) rs
unfolding check_referenced_ips
check_referenced_ips_sound local seen [] h = (tt, tt, tt)
check_referenced_ips_sound local seen (r ∷ rs) h =
    let (distinct, foreign, fresh) =
      check_referenced_ips_sound local (r.source ∷ seen) rs (ground (arith, h)) in
    let w = weaken r.source seen rs fresh in
    ((w.1, distinct), (ground (arith, h), foreign), (ground (arith, h), w.0))

foreign_to :
    (l : IpConfig) (ls rs : List IpConfig)
    → AreForeign (l ∷ ls) rs
    → All (λ q. q.source ≢ l.source) rs × AreForeign ls rs
foreign_to l ls [] h = (tt, tt)
foreign_to l ls (r ∷ rs) h =
    let ih = foreign_to l ls rs h.1 in
    (
      (λ e. ground (arith, h.0, (str_beq_iff r.source l.source).1 e), ih.0),
      (ground (arith, h.0), ih.1),
    )

distinct-append :
    (ls rs : List IpConfig)
    → HaveDistinctSources ls
    → HaveDistinctSources rs
    → AreForeign ls rs
    → HaveDistinctSources (ls ++ rs)
distinct-append [] rs dl dr f = dr
distinct-append (l ∷ ls) rs dl dr f =
    let g = foreign_to l ls rs f in
    (All-append (λ q. q.source ≢ l.source) ls rs dl.0 g.0, distinct-append ls rs dl.1 dr g.1)

or_then-none : (a b : Option LoadBalancerError) → or_then a b ≡ none → (a ≡ none) × (b ≡ none)
or_then-none none b h = (refl, h)
or_then-none (some e) b h = absurd cc

list_error-none : (name : Str) (o : Option ValidationError) → list_error name o ≡ none → o ≡ none
unfolding list_error
list_error-none name none h = refl
list_error-none name (some e) h = absurd cc

-- The rules for single addresses that a replacement list has or refers to.
abbrev pub rules : IpReplacementList → GlobalIpReplacementList → List IpConfig
rules list global = list.ips ++ referenced_ips list.global_ips global.ip

rules-HaveDistinctSources :
    (name : Str) (list : IpReplacementList) (global : GlobalIpReplacementList)
    → check_replacement_list name list global ≡ none
    → HaveDistinctSources (rules list global)
unfolding check_replacement_list
rules-HaveDistinctSources name list global h =
    let (own, rest) =
      or_then-none (list_error name (validate_ip_replacement_list list global)) _ h in
    let (nets, ips) = or_then-none (check_referenced_nets list.nets _) _ rest in
    let sound =
      validate_ip_replacement_list_sound list global
        (list_error-none name (validate_ip_replacement_list list global) own) in
    let refs = check_referenced_ips_sound list.ips [] _ ips in
    distinct-append list.ips _ sound.0.1.1 refs.0 refs.1

first_found :
    (x y z : Option Str) (t : Str) → or_else x y ≡ some t → or_else x (or_else y z) ≡ some t
first_found none none z t h = absurd cc
first_found none (some u) z t h = h
first_found (some u) y z t h = h

apply_rule :
    (a t : Str) (lb : LoadBalancerConfig) (global : GlobalIpReplacementList)
    → find_ip a (rules (get_ip_replacement_list lb) global) ≡ some t
    → apply_ip_replacement a lb global ≡ t
unfolding apply_ip_replacement
apply_rule a t lb global h =
    let list = get_ip_replacement_list lb in
    let found : or_else (find_ip a list.ips) (find_global_ip a list.global_ips global.ip) ≡ some t =
      ap (or_else (find_ip a list.ips)) (find_global_ip-eq a list.global_ips global.ip)
      ∙ sym (find_ip-append a list.ips (referenced_ips list.global_ips global.ip))
      ∙ h in
    rw (first_found (find_ip a list.ips) (find_global_ip a list.global_ips global.ip) _ t found)
      refl

-- Let the replacement list of a load balancer pass the checks of `validateIPReplacementList`. Then
-- `ApplyIPReplacement` gives the source of each of its rules for single addresses, an own one or one
-- of a referenced global group, exactly the target of that rule: no other rule and no network takes
-- it first.
pub accepted_rule-applies :
    (name : Str) (lb : LoadBalancerConfig) (global : GlobalIpReplacementList)
    (before : List IpConfig) (r : IpConfig) (after : List IpConfig)
    → check_replacement_list name (get_ip_replacement_list lb) global ≡ none
    → rules (get_ip_replacement_list lb) global ≡ before ++ r ∷ after
    → apply_ip_replacement r.source lb global ≡ r.target
accepted_rule-applies name lb global before r after h e = apply_rule r.source r.target lb global (
    ap (find_ip r.source) e
    ∙ sources_before before r after (
        subst HaveDistinctSources e
          (rules-HaveDistinctSources name (get_ip_replacement_list lb) global h)))
