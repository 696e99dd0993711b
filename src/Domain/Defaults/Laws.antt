-- ===== src/Domain/Defaults/Laws.antt =====
-- `ApplyDefaultValues` settles the configuration in one pass.
use mlb_controller.Base.{
  Bool, true, false, not, ◌&&◌, ◌≡◌, refl, ap, ◌∙◌, List, [], ◌∷◌, map, Option, none, some, Str,
  codes, ℤ, pos, ◌==◌, str_eq, int_eq, if◌then◌else◌, Bool-cases, inl, inr, arith,
}
use mlb_controller.Domain.Config.{Config, LoadBalancerConfig, nginx, envoy, DefaultBackendConfig}
use mlb_controller.Domain.Defaults.{
  or_default, or_default_str, inherit_backend, load_balancer_defaults, global_defaults,
  apply_default_values,
}

same : {A : Type 0} (b : Bool) (d : A) → (if b then d else d) ≡ d
same true d = refl
same false d = refl

or_default_idem : (x d : ℤ) → or_default (or_default x d) d ≡ or_default x d
unfolding or_default
or_default_idem x d = elim (Bool-cases (x == pos 0)) [
  | inl t ↦ rw t (same (d == pos 0) d)
  | inr f ↦ rw f (rw f refl)
]

or_default_str_idem : (x d : Str) → or_default_str (or_default_str x d) d ≡ or_default_str x d
unfolding or_default_str
or_default_str_idem x d = elim (Bool-cases (x == codes "")) [
  | inl t ↦ rw t (same (d == codes "") d)
  | inr f ↦ rw f (rw f refl)
]

global_defaults_idem : (cfg : Config) → global_defaults (global_defaults cfg) ≡ global_defaults cfg
unfolding global_defaults
global_defaults_idem cfg = simp (or_default_idem, or_default_str_idem)

inherit_idem :
    (b d : Option DefaultBackendConfig)
    → inherit_backend (inherit_backend b d) d ≡ inherit_backend b d
inherit_idem none none = refl
inherit_idem none (some d) = refl
inherit_idem (some b) d = refl

allow_idem :
    (b d : Bool)
    → (if not (if not b && d then true else b) && d then true else (if not b && d then true else b))
      ≡ (if not b && d then true else b)
allow_idem b d = ground arith

lb_idem :
    (cfg : Config) (lb : LoadBalancerConfig)
    → load_balancer_defaults cfg (load_balancer_defaults cfg lb) ≡ load_balancer_defaults cfg lb
unfolding load_balancer_defaults
lb_idem cfg (nginx c) = simp (or_default_idem, inherit_idem, allow_idem)
lb_idem cfg (envoy c) = simp (or_default_idem, inherit_idem, allow_idem)

lbs_idem :
    (cfg : Config) (lbs : List LoadBalancerConfig)
    → map (load_balancer_defaults cfg) (map (load_balancer_defaults cfg) lbs)
      ≡ map (load_balancer_defaults cfg) lbs
lbs_idem cfg [] = refl
lbs_idem cfg (lb ∷ lbs) = simp (lb_idem cfg lb, lbs_idem cfg lbs)

-- The defaults of the load balancers do not touch what `ApplyDefaultValues` sets globally.
with_lbs :
    (cfg : Config) (lbs : List LoadBalancerConfig)
    → global_defaults (record cfg { load_balancers = lbs })
      ≡ record (global_defaults cfg) { load_balancers = lbs }
unfolding global_defaults
with_lbs cfg lbs = refl

defaults_with_lbs :
    (cfg : Config) (lbs : List LoadBalancerConfig) (lb : LoadBalancerConfig)
    → load_balancer_defaults (record cfg { load_balancers = lbs }) lb
      ≡ load_balancer_defaults cfg lb
unfolding load_balancer_defaults
defaults_with_lbs cfg lbs (nginx c) = refl
defaults_with_lbs cfg lbs (envoy c) = refl

lbs_ext :
    (cfg : Config) (lbs rest : List LoadBalancerConfig)
    → map (load_balancer_defaults (record cfg { load_balancers = lbs })) rest
      ≡ map (load_balancer_defaults cfg) rest
lbs_ext cfg lbs [] = refl
lbs_ext cfg lbs (lb ∷ rest) = simp (defaults_with_lbs cfg lbs lb, lbs_ext cfg lbs rest)

abbrev with_list : List LoadBalancerConfig → Config → Config
with_list lbs cfg = record cfg { load_balancers = lbs }

abbrev fill : Config → Config
fill g = record g { load_balancers = map (load_balancer_defaults g) g.load_balancers }

-- A second pass of `ApplyDefaultValues` changes nothing.
pub apply_default_values_idem :
    (cfg : Config) → apply_default_values (apply_default_values cfg) ≡ apply_default_values cfg
unfolding apply_default_values
apply_default_values_idem cfg =
    ap fill (with_lbs g done ∙ ap (with_list done) (global_defaults_idem cfg))
    ∙ ap (λ lbs. with_list lbs g) (lbs_ext g done done ∙ lbs_idem g g.load_balancers)
  where
    g : Config
    g = global_defaults cfg

    done : List LoadBalancerConfig
    done = map (load_balancer_defaults g) g.load_balancers
