-- ===== src/Util/Validation/Laws.antt =====
-- What a replacement list satisfies that `ValidateIPReplacementList` accepts.
use mlb_controller.Base.{
  ℕ, suc, ◌+◌, ◌<◌, true, false, ◌≡◌, ◌≢◌, refl, sym, ap, ◌∙◌, List, [], ◌∷◌, ◌++◌, Option, none,
  some, Str, pos, leb_ℤ, ◌==◌, nat_eq, str_eq, str_beq_iff, any, All, arith, length, length-append,
  Bool-cases, inl, inr,
}
use mlb_controller.Domain.Config.{
  IpReplacementList, GlobalIpReplacementList, GlobalIpReplacement, GlobalNetReplacement, IpConfig,
  NetConfig,
}
use mlb_controller.Util.Validation.{
  is_valid_ip, max_mask, overlap, ValidationError, find_overlap, no_overlap, check_net, or_then,
  check_nets, check_ips, check_global_nets, check_global_ips, validate_ip_replacement_list,
}

abbrev pub IsNet : NetConfig → Type 0
IsNet n =
    (is_valid_ip n.source ≡ true)
    × (is_valid_ip n.target ≡ true)
    × (leb_ℤ (pos 0) n.mask ≡ true)
    × (leb_ℤ n.mask (pos (max_mask n)) ≡ true)

-- No network overlaps a later one.
abbrev pub AreDisjoint : List NetConfig → Type 0
AreDisjoint [] = Unit
AreDisjoint (n ∷ ns) = All (λ m. overlap n m ≡ false) ns × AreDisjoint ns

abbrev pub IsRule : IpConfig → Type 0
IsRule r = (is_valid_ip r.source ≡ true) × (is_valid_ip r.target ≡ true)

-- No address has two rules.
abbrev pub HaveDistinctSources : List IpConfig → Type 0
HaveDistinctSources [] = Unit
HaveDistinctSources (r ∷ rs) = All (λ q. q.source ≢ r.source) rs × HaveDistinctSources rs

pub or_then-none : (a b : Option ValidationError) → or_then a b ≡ none → (a ≡ none) × (b ≡ none)
or_then-none none b h = (refl, h)
or_then-none (some e) b h = absurd cc

find_overlap-later :
    (n : NetConfig) (i j : ℕ) (ms : List NetConfig)
    → i < j
    → find_overlap n i j ms ≡ none
    → All (λ m. overlap n m ≡ false) ms
unfolding find_overlap
find_overlap-later n i j [] l h = tt
find_overlap-later n i j (m ∷ ms) l h = elim (Bool-cases (overlap n m)) [
  | inl t ↦ absurd (ground (arith, h, t))
  | inr f ↦ (f, find_overlap-later n i (suc j) ms (omega arith) (ground (arith, h, f)))
]

find_overlap-skip :
    (n : NetConfig) (i j : ℕ) (before after : List NetConfig)
    → i ≡ j + length before
    → find_overlap n i j (before ++ n ∷ after) ≡ none
    → All (λ m. overlap n m ≡ false) after
unfolding find_overlap
find_overlap-skip n i j [] after e h =
    find_overlap-later n i (suc j) after (omega arith) (ground (arith, h))
find_overlap-skip n i j (b ∷ before) after e h = elim (Bool-cases (overlap n b)) [
  | inl t ↦ absurd (ground (arith, h, t))
  | inr f ↦ find_overlap-skip n i (suc j) before after (omega arith) (ground (arith, h, f))
]

no_overlap-none : (n : NetConfig) (o : Option NetConfig) → no_overlap n o ≡ none → o ≡ none
unfolding no_overlap
no_overlap-none n none h = refl
no_overlap-none n (some m) h = absurd cc

check_net_sound :
    (nets : List NetConfig) (i : ℕ) (n : NetConfig)
    → check_net nets i n ≡ none
    → IsNet n × (find_overlap n i 0 nets ≡ none)
unfolding check_net
check_net_sound nets i n h = (
  (ground (arith, h), ground (arith, h), ground (arith, h), ground (arith, h)),
  no_overlap-none n (find_overlap n i 0 nets) (ground (arith, h)),
)

snoc-append :
    (xs : List NetConfig) (n : NetConfig) (ys : List NetConfig)
    → xs ++ n ∷ ys ≡ (xs ++ n ∷ []) ++ ys
snoc-append [] n ys = refl
snoc-append (x ∷ xs) n ys = ap (λ zs. x ∷ zs) (snoc-append xs n ys)

pub check_nets_sound :
    (nets before ns : List NetConfig) (i : ℕ)
    → nets ≡ before ++ ns
    → i ≡ length before
    → check_nets nets i ns ≡ none
    → All IsNet ns × AreDisjoint ns
unfolding check_nets
check_nets_sound nets before [] i e l h = (tt, tt)
check_nets_sound nets before (n ∷ ns) i e l h =
    let (c, rest) = or_then-none (check_net nets i n) (check_nets nets (suc i) ns) h in
    let (valid, none_found) = check_net_sound nets i n c in
    let ih =
      check_nets_sound nets (before ++ n ∷ []) ns (suc i) (e ∙ snoc-append before n ns)
        (omega (arith, l, length-append before (n ∷ []))) rest in
    (
      (valid, ih.0),
      (
        find_overlap-skip n i 0 before ns (omega (arith, l))
            (ap (find_overlap n i 0) (sym e) ∙ none_found),
        ih.1,
      ),
    )

pub weaken :
    (s : Str) (seen : List Str) (rs : List IpConfig)
    → All (λ r. any (λ t. t == r.source) (s ∷ seen) ≡ false) rs
    → All (λ r. any (λ t. t == r.source) seen ≡ false) rs × All (λ r. r.source ≢ s) rs
weaken s seen [] h = (tt, tt)
weaken s seen (r ∷ rs) h =
    let ih = weaken s seen rs h.1 in
    (
      (ground (arith, h.0), ih.0),
      (λ e. ground (arith, h.0, (str_beq_iff s r.source).1 (sym e)), ih.1),
    )

pub check_ips_sound :
    (seen : List Str) (rs : List IpConfig)
    → check_ips seen rs ≡ none
    → All IsRule rs × HaveDistinctSources rs × All (λ r. any (λ t. t == r.source) seen ≡ false) rs
unfolding check_ips
check_ips_sound seen [] h = (tt, tt, tt)
check_ips_sound seen (r ∷ rs) h =
    let (rules, distinct, fresh) = check_ips_sound (r.source ∷ seen) rs (ground (arith, h)) in
    let w = weaken r.source seen rs fresh in
    (((ground (arith, h), ground (arith, h)), rules), (w.1, distinct), (ground (arith, h), w.0))

global_nets_sound :
    (gs : List GlobalNetReplacement) (names : List Str)
    → check_global_nets gs names ≡ none
    → All (λ name. any (λ g. g.name == name) gs ≡ true) names
unfolding check_global_nets
global_nets_sound gs [] h = tt
global_nets_sound gs (name ∷ names) h =
    (ground (arith, h), global_nets_sound gs names (ground (arith, h)))

global_ips_sound :
    (gs : List GlobalIpReplacement) (names : List Str)
    → check_global_ips gs names ≡ none
    → All (λ name. any (λ g. g.name == name) gs ≡ true) names
unfolding check_global_ips
global_ips_sound gs [] h = tt
global_ips_sound gs (name ∷ names) h =
    (ground (arith, h), global_ips_sound gs names (ground (arith, h)))

-- The networks of a list: valid rules, no two of which overlap.
abbrev pub AreNets : List NetConfig → Type 0
AreNets ns = All IsNet ns × AreDisjoint ns

abbrev pub AreRules : List IpConfig → Type 0
AreRules rs = All IsRule rs × HaveDistinctSources rs

abbrev pub RefersTo : IpReplacementList → GlobalIpReplacementList → Type 0
RefersTo list global =
    All (λ name. any (λ g. g.name == name) global.net ≡ true) list.global_nets
    × All (λ name. any (λ g. g.name == name) global.ip ≡ true) list.global_ips

-- A replacement list that `ValidateIPReplacementList` accepts has networks with valid addresses and
-- masks, no two of which overlap, rules for valid addresses, no two of them for the same source, and
-- refers only to groups that the global list has.
pub validate_ip_replacement_list_sound :
    (list : IpReplacementList) (global : GlobalIpReplacementList)
    → validate_ip_replacement_list list global ≡ none
    → (AreNets list.nets × AreRules list.ips) × RefersTo list global
unfolding validate_ip_replacement_list
validate_ip_replacement_list_sound list global h =
    let (nets, rest) = or_then-none (check_nets list.nets 0 list.nets) _ h in
    let (ips, names) = or_then-none (check_ips [] list.ips) _ rest in
    let (net_names, ip_names) =
      or_then-none (check_global_nets global.net list.global_nets) _ names in
    let rules = check_ips_sound [] list.ips ips in
    (
      (check_nets_sound list.nets [] list.nets 0 refl refl nets, (rules.0, rules.1)),
      (
        global_nets_sound global.net list.global_nets net_names,
        global_ips_sound global.ip list.global_ips ip_names,
      ),
    )
