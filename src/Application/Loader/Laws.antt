-- ===== src/Application/Loader/Laws.antt =====
-- What a configuration satisfies that the loader returns.
use mathlib.Core.Path.{subst}
use mlb_controller.Base.{
  ◌≡◌, refl, sym, ap, ◌∙◌, ◌&&◌, List, [], ◌∷◌, Option, none, some, Str, codes, ◌==◌, str_eq,
  str_beq_iff, All, map, Bool-cases, inl, inr,
}
use mlb_controller.Base.Fallible.{
  success, failure, ◌>>=◌, or_failure, >>=-eq-success, success-injective,
}
use mlb_controller.Net.Tls.{Tls}
use mlb_controller.Domain.Config.{Config, LoadBalancerConfig, nginx, envoy}
use mlb_controller.Domain.Defaults.{apply_default_values, global_defaults, load_balancer_defaults}
use mlb_controller.Domain.Defaults.Laws.{apply_default_values_idem}
use mlb_controller.Validator.Settings.{to_lower}
use mlb_controller.Validator.Composite.{ConfigError, validate}
use mlb_controller.Application.Certificates.{Files, CertificateContent, Checked, load}
use mlb_controller.Application.Certificates.Checks.{IsUsable}
use mlb_controller.Application.Certificates.Laws.{load-IsUsable}
use mlb_controller.Application.Loader.{
  unmarshal_nginx, unmarshal_envoy, unsupported_type, type_missing, context_error, Loaded, Sources,
  name_error, load_certificates_for, load_nginx, load_envoy, load_typed, load_balancer,
  load_balancers, config_of, accept, load_config,
}

-- A load balancer of the type that its settings are for, with certificates that its clients can use.
abbrev pub IsTyped : Tls → LoadBalancerConfig → Type 0
IsTyped tls (nginx c) = (c.lb_type ≡ codes "nginx") × IsUsable tls c.hostname c.cert c.key c.ca
IsTyped tls (envoy c) = (c.lb_type ≡ codes "envoy") × IsUsable tls c.hostname c.cert c.key c.ca

defaults-IsTyped :
    (tls : Tls) (cfg : Config) (lb : LoadBalancerConfig)
    → IsTyped tls lb
    → IsTyped tls (load_balancer_defaults cfg lb)
unfolding load_balancer_defaults
defaults-IsTyped tls cfg (nginx c) h = h
defaults-IsTyped tls cfg (envoy c) h = h

defaults-All :
    (tls : Tls) (cfg : Config) (lbs : List LoadBalancerConfig)
    → All (IsTyped tls) lbs
    → All (IsTyped tls) (map (load_balancer_defaults cfg) lbs)
defaults-All tls cfg [] h = tt
defaults-All tls cfg (lb ∷ lbs) h = (defaults-IsTyped tls cfg lb h.0, defaults-All tls cfg lbs h.1)

apply_defaults-All :
    (tls : Tls) (cfg : Config)
    → All (IsTyped tls) cfg.load_balancers
    → All (IsTyped tls) (apply_default_values cfg).load_balancers
unfolding apply_default_values
apply_defaults-All tls cfg h = defaults-All tls (global_defaults cfg) cfg.load_balancers h

name_error-eq-success :
    (name : Str) (m : Checked CertificateContent) {c : CertificateContent}
    → name_error name m ≡ success c
    → m ≡ success c
name_error-eq-success name (success c) h = cc
name_error-eq-success name (failure e) h = cc

-- The certificates are loaded from files.
module _ {Raw : Type 0} (src : Sources Raw) (tls : Tls) (files : Files)
    (from_files : src.load_certificates ≡ load tls files) where
  certificates-IsUsable :
      (name cert_path key_path ca_path host : Str) (content : CertificateContent)
      → load_certificates_for src name cert_path key_path ca_path host ≡ success content
      → IsUsable tls host content.cert content.key content.ca
  unfolding load_certificates_for
  certificates-IsUsable name cert_path key_path ca_path host content h =
      elim (Bool-cases (cert_path == [] && key_path == [] && ca_path == [])) [
        | inl t ↦ none_given content (rw t at h)
        | inr f ↦ load-IsUsable tls files cert_path key_path ca_path host host content (
            ap (λ g. g cert_path key_path ca_path host) (sym from_files)
            ∙ name_error-eq-success name _ (rw f at h))
      ]
    where
      none_given :
          (content : CertificateContent)
          → ◌≡◌ {A = Loaded CertificateContent}
              (success (record { cert = []; key = []; ca = [] }))
              (success content)
          → IsUsable tls host content.cert content.key content.ca
      none_given content e =
          subst (λ c. IsUsable tls host c.cert c.key c.ca) (success-injective e)
            (inl refl, inl refl)

  load_nginx-IsTyped :
      (raw : Raw) (lb : LoadBalancerConfig)
      → load_nginx src (codes "nginx") raw ≡ success lb
      → IsTyped tls lb
  unfolding load_nginx
  load_nginx-IsTyped raw lb h =
      let (c, decoded, rest) =
        >>=-eq-success (or_failure unmarshal_nginx (src.decode_nginx raw)) _ h in
      let (content, certs, end) =
        >>=-eq-success
          (load_certificates_for src c.name c.cert_path c.key_path c.ca_path c.hostname) _ rest in
      subst (IsTyped tls) (success-injective end) (
        refl,
        certificates-IsUsable c.name c.cert_path c.key_path c.ca_path c.hostname content certs,
      )

  load_envoy-IsTyped :
      (raw : Raw) (lb : LoadBalancerConfig)
      → load_envoy src (codes "envoy") raw ≡ success lb
      → IsTyped tls lb
  unfolding load_envoy
  load_envoy-IsTyped raw lb h =
      let (c, decoded, rest) =
        >>=-eq-success (or_failure unmarshal_envoy (src.decode_envoy raw)) _ h in
      let (content, certs, end) =
        >>=-eq-success
          (load_certificates_for src c.name c.cert_path c.key_path c.ca_path c.hostname) _ rest in
      subst (IsTyped tls) (success-injective end) (
        refl,
        certificates-IsUsable c.name c.cert_path c.key_path c.ca_path c.hostname content certs,
      )

  load_typed-IsTyped :
      (type_str : Str) (raw : Raw) (lb : LoadBalancerConfig)
      → load_typed src type_str raw ≡ success lb
      → IsTyped tls lb
  unfolding load_typed
  load_typed-IsTyped type_str raw lb h = elim (Bool-cases (type_str == codes "nginx")) [
    | inl t ↦ load_nginx-IsTyped raw lb (
        ap (λ k. load_nginx src k raw) (sym ((str_beq_iff type_str (codes "nginx")).0 t))
        ∙ rw t at h)
    | inr f ↦ elim (Bool-cases (type_str == codes "envoy")) [
      | inl t ↦ load_envoy-IsTyped raw lb (
          ap (λ k. load_envoy src k raw) (sym ((str_beq_iff type_str (codes "envoy")).0 t))
          ∙ rw (f, t) at h)
      | inr g ↦ absurd (refused (rw (f, g) at h))
    ]
  ]
    where
      refused : ◌≡◌ {A = Loaded LoadBalancerConfig} (failure unsupported_type) (success lb) → ⊥
      refused e = cc

  load_balancers-IsTyped :
      (raws : List Raw) (lbs : List LoadBalancerConfig)
      → load_balancers src raws ≡ success lbs
      → All (IsTyped tls) lbs
  unfolding load_balancers load_balancer
  load_balancers-IsTyped [] lbs h = subst (All (IsTyped tls)) (success-injective h) tt
  load_balancers-IsTyped (raw ∷ raws) lbs h =
      let (lb, one, rest) = >>=-eq-success (load_balancer src raw) _ h in
      let (others, more, end) = >>=-eq-success (load_balancers src raws) _ rest in
      let (type_raw, found, typed) =
        >>=-eq-success (or_failure type_missing (src.type_text raw)) _ one in
      subst (All (IsTyped tls)) (success-injective end) (
        load_typed-IsTyped (to_lower type_raw) raw lb typed,
        load_balancers-IsTyped raws others more,
      )

  accept-eq-success :
      (cfg c : Config) (o : Option ConfigError)
      → accept src c o ≡ success cfg
      → (c ≡ cfg) × (o ≡ none)
  unfolding accept
  accept-eq-success cfg c none h = (success-injective h, refl)
  accept-eq-success cfg c (some e) h = absurd cc

  -- Let the certificates come from `FileLoader`. A configuration that the loader returns has all
  -- defaults set, the composite validator accepts it, and each load balancer in it has the type of its
  -- settings, and certificates that a client can be made of.
  pub load_config_sound :
      (cfg : Config)
      → load_config src ≡ success cfg
      → (apply_default_values cfg ≡ cfg)
        × (validate cfg ≡ none)
        × All (IsTyped tls) cfg.load_balancers
  unfolding load_config config_of
  load_config_sound cfg h = elim (Bool-cases src.context_ended) [
    | inl t ↦ absurd (refused (rw t at h))
    | inr f ↦ sound (rw f at h)
  ]
    where
      refused : ◌≡◌ {A = Loaded Config} (failure context_error) (success cfg) → ⊥
      refused e = cc

      sound :
          (src.settings >>= λ raw. load_balancers src raw.load_balancers >>= λ lbs.
          accept src
            (apply_default_values (config_of src raw lbs))
            (validate (apply_default_values (config_of src raw lbs))))
            ≡ success cfg
          → (apply_default_values cfg ≡ cfg)
            × (validate cfg ≡ none)
            × All (IsTyped tls) cfg.load_balancers
      sound e =
          let (raw, read, rest) = >>=-eq-success src.settings _ e in
          let (lbs, typed, end) = >>=-eq-success (load_balancers src raw.load_balancers) _ rest in
          let (same, valid) = accept-eq-success cfg _ _ end in
          (
            ap apply_default_values (sym same)
                ∙ apply_default_values_idem (config_of src raw lbs)
                ∙ same,
            ap validate (sym same) ∙ valid,
            subst (λ c. All (IsTyped tls) c.load_balancers) same
                (apply_defaults-All tls (config_of src raw lbs)
                  (load_balancers-IsTyped raw.load_balancers lbs typed)),
          )
