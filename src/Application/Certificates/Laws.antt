-- ===== src/Application/Certificates/Laws.antt =====
-- What the certificates that `FileLoader` returns are good for.
use mlb_controller.Base.{
  ◌≡◌, refl, ap, ◌∙◌, ◌⊎◌, inl, inr, Bool, true, false, not, ◌&&◌, ◌||◌, List, [], Option, none,
  some, Str, codes, ◌==◌, str_eq, if◌then◌else◌, is_empty, map, arith, Bool-cases,
}
use mlb_controller.Base.Fallible.{
  success, failure, >>=-eq-success, or_failure-eq-success, success-injective,
}
use mlb_controller.Net.Tls.{Tls}
use mlb_controller.Domain.Config.{NginxConfig}
use mlb_controller.Nginx.Client.{NginxClient, Transport}
use mlb_controller.Nginx.ClientSet.{
  ca_failed, check_chain, client_certificate, root_certificates, new_nginx_client_set, new_client,
}
use mlb_controller.Application.Certificates.{
  CertificateContent, Checked, Files, check_pair, check_ca, validate_cert, read_optional, load,
  ca_missing, read_failed, invalid_certificate, invalid_ca_file,
}
use mlb_controller.Application.Certificates.Checks.{
  IsUsable, wrap_error-eq-success, pair_usable, ca_usable, validate_parts,
}

-- The parts of an accepted load.
load_parts :
    (tls : Tls) (files : Files) (cert_path key_path ca_path name : Str)
    (content : CertificateContent)
    → load tls files cert_path key_path ca_path name ≡ success content
    → (check_pair tls files cert_path key_path name ≡ success tt)
      × (check_ca tls files ca_path ≡ success tt)
      × (read_optional files (not (cert_path == [])) cert_path ≡ success content.cert)
      × (read_optional files (not (cert_path == [])) key_path ≡ success content.key)
      × (read_optional files (not (ca_path == [])) ca_path ≡ success content.ca)
unfolding load
load_parts tls files cert_path key_path ca_path name content h =
    let (u, valid, reads) =
      >>=-eq-success (validate_cert tls files cert_path key_path ca_path name) _ h in
    let (cert, c, keys) =
      >>=-eq-success (read_optional files (not (cert_path == [])) cert_path) _ reads in
    let (key, k, cas) =
      >>=-eq-success (read_optional files (not (cert_path == [])) key_path) _ keys in
    let (ca, a, end) = >>=-eq-success (read_optional files (not (ca_path == [])) ca_path) _ cas in
    let (pair_ok, ca_ok) = validate_parts tls files cert_path key_path ca_path name u valid in
    let same = content_eq (record { cert = cert; key = key; ca = ca }) content end in
    (
      pair_ok,
      ca_ok,
      c ∙ ap (λ x. success x.cert) same,
      k ∙ ap (λ x. success x.key) same,
      a ∙ ap (λ x. success x.ca) same,
    )
  where
    content_eq :
        (x y : CertificateContent)
        → ◌≡◌ {A = Checked CertificateContent} (success x) (success y)
        → x ≡ y
    content_eq x y e = cc

pair_part :
    (tls : Tls) (files : Files) (cert_path key_path name host cert key : Str)
    → check_pair tls files cert_path key_path name ≡ success tt
    → read_optional files (not (cert_path == [])) cert_path ≡ success cert
    → read_optional files (not (cert_path == [])) key_path ≡ success key
    → ((is_empty cert && is_empty key) ≡ true)
      ⊎ ((chain : Option (List Str)) × (check_chain tls host (tls.x509_key_pair cert key)
            ≡ success chain))
unfolding check_pair read_optional
pair_part tls files cert_path key_path name host cert key p c k =
    elim (Bool-cases (cert_path == [])) [
      | inl t ↦ inl (rw (← success-injective (rw t at c), ← success-injective (rw t at k)) refl)
      | inr f ↦ inr (
          pair_usable tls files cert_path key_path name host cert key
            (wrap_error-eq-success invalid_certificate _ (rw f at p))
            (or_failure-eq-success (read_failed cert_path) (files.read_file cert_path) (rw f at c))
            (or_failure-eq-success (read_failed key_path) (files.read_file key_path) (rw f at k)))
    ]

ca_part :
    (tls : Tls) (files : Files) (ca_path ca : Str)
    → check_ca tls files ca_path ≡ success tt
    → read_optional files (not (ca_path == [])) ca_path ≡ success ca
    → (is_empty ca ≡ true) ⊎ (tls.append_certs_from_pem ca ≡ true)
unfolding check_ca read_optional
ca_part tls files ca_path ca p a = elim (Bool-cases (ca_path == [])) [
  | inl t ↦ inl (rw (← success-injective (rw t at a)) refl)
  | inr f ↦ elim (Bool-cases (files.exists ca_path)) [
    | inr g ↦ absurd (rejected ca_path (rw (f, g) at p))
    | inl y ↦ inr (
        ca_usable tls files ca_path ca (wrap_error-eq-success invalid_ca_file _ (rw (f, y) at p))
          (or_failure-eq-success (read_failed ca_path) (files.read_file ca_path) (rw f at a)))
  ]
]
  where
    rejected :
        (path : Str) → ◌≡◌ {A = Checked (Unit {0})} (failure (ca_missing path)) (success tt) → ⊥
    rejected path e = cc

-- What `Load` returns is usable by the clients of NGINX.
pub load-IsUsable :
    (tls : Tls) (files : Files) (cert_path key_path ca_path name host : Str)
    (content : CertificateContent)
    → load tls files cert_path key_path ca_path name ≡ success content
    → IsUsable tls host content.cert content.key content.ca
load-IsUsable tls files cert_path key_path ca_path name host content h =
    let (pair, ca, c, k, a) = load_parts tls files cert_path key_path ca_path name content h in
    (
      pair_part tls files cert_path key_path name host content.cert content.key pair c k,
      ca_part tls files ca_path content.ca ca a,
    )

certificate_ready :
    (tls : Tls) (ngx : NginxConfig)
    → IsUsable tls ngx.hostname ngx.cert ngx.key ngx.ca
    → (chain : Option (List Str)) × (client_certificate tls ngx ≡ success chain)
unfolding client_certificate
certificate_ready tls ngx (inl none_given, ca) =
    (none, rw (no_pair (is_empty ngx.cert) (is_empty ngx.key) none_given) (ground arith))
  where
    no_pair : (a b : Bool) → (a && b) ≡ true → (not a || not b) ≡ false
    no_pair a b e = ground arith
certificate_ready tls ngx (inr (chain, checked), ca) =
    elim (Bool-cases
      (ngx.protocol == codes "https" && (not (is_empty ngx.cert) || not (is_empty ngx.key)))) [
        | inl t ↦ (chain, rw t checked)
        | inr f ↦ (none, rw f refl)
      ]

roots_ready :
    (tls : Tls) (ngx : NginxConfig)
    → (is_empty ngx.ca ≡ true) ⊎ (tls.append_certs_from_pem ngx.ca ≡ true)
    → (roots : Option Str) × (root_certificates tls ngx ≡ success roots)
unfolding root_certificates
roots_ready tls ngx h = elim (Bool-cases (ngx.protocol == codes "https" && not (is_empty ngx.ca))) [
  | inr f ↦ (none, rw f refl)
  | inl t ↦ (some ngx.ca, rw t (go h t))
]
  where
    go :
        (is_empty ngx.ca ≡ true) ⊎ (tls.append_certs_from_pem ngx.ca ≡ true)
        → (ngx.protocol == codes "https" && not (is_empty ngx.ca)) ≡ true
        → (if tls.append_certs_from_pem ngx.ca then success (some ngx.ca) else failure ca_failed)
          ≡ success (some ngx.ca)
    go (inl e) t = absurd (ground arith)
    go (inr a) t = rw a refl

-- Certificates that can be used make a set of clients, whatever the protocol is.
pub usable-ready :
    (tls : Tls) (ngx : NginxConfig)
    → IsUsable tls ngx.hostname ngx.cert ngx.key ngx.ca
    → (clients : List NginxClient) × (new_nginx_client_set tls ngx ≡ success clients)
unfolding new_nginx_client_set
usable-ready tls ngx h =
    let (chain, c) = certificate_ready tls ngx h in
    let (roots, r) = roots_ready tls ngx h.1 in
    let transport : Transport = record {
      server_name = ngx.hostname;
      certificate = chain;
      root_cas = roots;
    } in
    (map (new_client ngx transport) ngx.addresses, rw (c, r) refl)
