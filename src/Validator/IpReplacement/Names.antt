-- ===== src/Validator/IpReplacement/Names.antt =====
-- The names of an accepted global replacement list are different.
use mlb_controller.Base.{
  ◌≡◌, refl, sym, ap, ◌∙◌, Bool, true, false, List, [], ◌∷◌, ◌++◌, none, Str, ◌==◌, str_eq,
  str_beq_iff, any, append_nil, arith, Bool-cases, inl, inr,
}
use mlb_controller.Domain.Config.{GlobalIpReplacement, GlobalNetReplacement}
use mlb_controller.Validator.LoadBalancer.{nets_of, ips_of}
use mlb_controller.Validator.IpReplacement.{check_ip_names, check_names}

abbrev pub net_names : List GlobalNetReplacement → List Str
net_names [] = []
net_names (g ∷ gs) = g.name ∷ net_names gs

abbrev pub ip_names : List GlobalIpReplacement → List Str
ip_names [] = []
ip_names (g ∷ gs) = g.name ∷ ip_names gs

-- No name is in the set, and none occurs twice.
abbrev pub AreFresh : List Str → List Str → Type 0
AreFresh seen [] = Unit
AreFresh seen (n ∷ ns) = (any (λ m. m == n) seen ≡ false) × AreFresh (n ∷ seen) ns

check_ip_names-fresh :
    (seen : List Str) (gs : List GlobalIpReplacement)
    → check_ip_names seen gs ≡ none
    → AreFresh seen (ip_names gs)
unfolding check_ip_names
check_ip_names-fresh seen [] h = tt
check_ip_names-fresh seen (g ∷ gs) h =
    (ground (arith, h), check_ip_names-fresh (g.name ∷ seen) gs (ground (arith, h)))

pub check_names-fresh :
    (seen : List Str) (gs : List GlobalNetReplacement) (ips : List GlobalIpReplacement)
    → check_names seen gs ips ≡ none
    → AreFresh seen (net_names gs ++ ip_names ips)
unfolding check_names
check_names-fresh seen [] ips h = check_ip_names-fresh seen ips h
check_names-fresh seen (g ∷ gs) ips h =
    (ground (arith, h), check_names-fresh (g.name ∷ seen) gs ips (ground (arith, h)))

-- A name that is in the set already is none of the fresh ones.
seen_differs :
    (n m : Str) (seen : List Str)
    → any (λ k. k == n) seen ≡ true
    → any (λ k. k == m) seen ≡ false
    → (m == n) ≡ false
seen_differs n m seen t f = elim (Bool-cases (m == n)) [
  | inl e ↦
      absurd
        (true-ne-false (sym t ∙ ap (λ k. any (λ j. j == k) seen) (sym ((str_beq_iff m n).0 e)) ∙ f))
  | inr g ↦ g
]
  where
    true-ne-false : ◌≡◌ {A = Bool} true false → ⊥
    true-ne-false q = cc

nets_of-seen :
    (n : Str) (seen : List Str) (gs : List GlobalNetReplacement) (rest : List Str)
    → any (λ k. k == n) seen ≡ true
    → AreFresh seen (net_names gs ++ rest)
    → nets_of n gs ≡ []
unfolding nets_of
nets_of-seen n seen [] rest t f = refl
nets_of-seen n seen (g ∷ gs) rest t f =
    rw (seen_differs n g.name seen t f.0)
      (nets_of-seen n (g.name ∷ seen) gs rest (ground (arith, t)) f.1)

ips_of-seen :
    (n : Str) (seen : List Str) (gs : List GlobalIpReplacement)
    → any (λ k. k == n) seen ≡ true
    → AreFresh seen (ip_names gs)
    → ips_of n gs ≡ []
unfolding ips_of
ips_of-seen n seen [] t f = refl
ips_of-seen n seen (g ∷ gs) t f =
    rw (seen_differs n g.name seen t f.0) (ips_of-seen n (g.name ∷ seen) gs (ground (arith, t)) f.1)

own_name : (n : Str) (seen : List Str) → any (λ k. k == n) (n ∷ seen) ≡ true
own_name n seen = rw ((str_beq_iff n n).1 refl) refl

-- A name differs from each one before it.
net_differs :
    (b : Str) (seen : List Str) (before : List GlobalNetReplacement) (g : GlobalNetReplacement)
    (after : List GlobalNetReplacement) (rest : List Str)
    → any (λ k. k == b) seen ≡ true
    → AreFresh seen (net_names (before ++ g ∷ after) ++ rest)
    → (g.name == b) ≡ false
net_differs b seen [] g after rest t f = seen_differs b g.name seen t f.0
net_differs b seen (x ∷ before) g after rest t f =
    net_differs b (x.name ∷ seen) before g after rest (ground (arith, t)) f.1

ip_differs :
    (b : Str) (seen : List Str) (before : List GlobalIpReplacement) (g : GlobalIpReplacement)
    (after : List GlobalIpReplacement)
    → any (λ k. k == b) seen ≡ true
    → AreFresh seen (ip_names (before ++ g ∷ after))
    → (g.name == b) ≡ false
ip_differs b seen [] g after t f = seen_differs b g.name seen t f.0
ip_differs b seen (x ∷ before) g after t f =
    ip_differs b (x.name ∷ seen) before g after (ground (arith, t)) f.1

flip : (m n : Str) → (m == n) ≡ false → (n == m) ≡ false
flip m n f = elim (Bool-cases (n == m)) [
  | inl t ↦ absurd (cc (f, (str_beq_iff m n).1 (sym ((str_beq_iff n m).0 t))))
  | inr g ↦ g
]

pub nets_of-fresh :
    (seen : List Str) (before : List GlobalNetReplacement) (g : GlobalNetReplacement)
    (after : List GlobalNetReplacement) (rest : List Str)
    → AreFresh seen (net_names (before ++ g ∷ after) ++ rest)
    → nets_of g.name (before ++ g ∷ after) ≡ g.nets
unfolding nets_of
nets_of-fresh seen [] g after rest f =
    rw
      (
        (str_beq_iff g.name g.name).1 refl,
        nets_of-seen g.name (g.name ∷ seen) after rest (own_name g.name seen) f.1,
      )
      (append_nil g.nets)
nets_of-fresh seen (b ∷ before) g after rest f =
    rw
      (flip g.name b.name
        (net_differs b.name (b.name ∷ seen) before g after rest (own_name b.name seen) f.1))
      (nets_of-fresh (b.name ∷ seen) before g after rest f.1)

ips_of-fresh :
    (seen : List Str) (before : List GlobalIpReplacement) (g : GlobalIpReplacement)
    (after : List GlobalIpReplacement)
    → AreFresh seen (ip_names (before ++ g ∷ after))
    → ips_of g.name (before ++ g ∷ after) ≡ g.ips
unfolding ips_of
ips_of-fresh seen [] g after f =
    rw
      (
        (str_beq_iff g.name g.name).1 refl,
        ips_of-seen g.name (g.name ∷ seen) after (own_name g.name seen) f.1,
      )
      (append_nil g.ips)
ips_of-fresh seen (b ∷ before) g after f =
    rw
      (flip g.name b.name
        (ip_differs b.name (b.name ∷ seen) before g after (own_name b.name seen) f.1))
      (ips_of-fresh (b.name ∷ seen) before g after f.1)

-- Behind the names of the networks.
pub ips_of-behind :
    (seen : List Str) (names : List Str) (before : List GlobalIpReplacement)
    (g : GlobalIpReplacement) (after : List GlobalIpReplacement)
    → AreFresh seen (names ++ ip_names (before ++ g ∷ after))
    → ips_of g.name (before ++ g ∷ after) ≡ g.ips
ips_of-behind seen [] before g after f = ips_of-fresh seen before g after f
ips_of-behind seen (n ∷ names) before g after f = ips_of-behind (n ∷ seen) names before g after f.1
