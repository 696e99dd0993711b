-- ===== src/Application/Certificates/Checks.antt =====
-- The checks of internal/adapters/certificate/loader.go on one pair of files and one file of
-- authorities.
use mlb_controller.Base.{
  ◌≡◌, refl, sym, ap, ◌∙◌, ◌⊎◌, Bool, true, false, not, ◌&&◌, List, [], ◌∷◌, Option, none, some,
  Str, str_eq, ltb, is_empty, arith,
}
use mlb_controller.Base.Fallible.{
  success, failure, ◌>>=◌, ◌>>◌, or_failure, >>=-eq-success, or_failure-eq-success,
}
use mlb_controller.Net.Tls.{Tls, X509Certificate}
use mlb_controller.Nginx.ClientSet.{check_expiry, check_chain}
use mlb_controller.Application.Certificates.{
  CertError, Checked, require, Files, check_certificate, validate_cert_key, validate_ca, wrap_error,
  check_pair, check_ca, validate_cert, first_certificate,
}

-- A certificate with its key, or none, and CA certificates, or none, that a client can be made of.
abbrev pub IsUsable : Tls → Str → Str → Str → Str → Type 0
IsUsable tls host cert key ca =
    (((is_empty cert && is_empty key) ≡ true)
      ⊎ ((chain : Option (List Str)) × (check_chain tls host (tls.x509_key_pair cert key)
            ≡ success chain)))
    × ((is_empty ca ≡ true) ⊎ (tls.append_certs_from_pem ca ≡ true))

require-eq-success : (b : Bool) (e : CertError) {u : Unit {0}} → require b e ≡ success u → b ≡ true
require-eq-success true e h = refl
require-eq-success false e h = cc

pub wrap_error-eq-success :
    (f : CertError → CertError) (m : Checked (Unit {0})) {u : Unit {0}}
    → wrap_error f m ≡ success u
    → m ≡ success tt
wrap_error-eq-success f (success u) h = refl
wrap_error-eq-success f (failure e) h = cc

not_expired :
    (tls : Tls) (path name : Str) (cert : X509Certificate) {u : Unit {0}}
    → check_certificate tls path name cert ≡ success u
    → ltb cert.not_after tls.now ≡ false
unfolding check_certificate
not_expired tls path name cert h =
    let (u, first, rest) = >>=-eq-success (require (not (ltb cert.not_after tls.now)) _) _ h in
    flip (ltb cert.not_after tls.now)
      (require-eq-success (not (ltb cert.not_after tls.now)) _ first)
  where
    flip : (b : Bool) → not b ≡ true → b ≡ false
    flip true e = sym e
    flip false e = refl

-- The chain of the pair that the loader has checked passes the checks of the client.
chain_usable :
    (tls : Tls) (path name host : Str) (pair : Option (List Str)) (e f : CertError) {u : Unit {0}}
    → (or_failure e pair >>= λ chain. first_certificate chain >>= λ leaf.
        or_failure f (tls.parse_certificate leaf) >>= λ cert. check_certificate tls path name cert)
      ≡ success u
    → (chain : Option (List Str)) × (check_chain tls host pair ≡ success chain)
unfolding first_certificate check_chain
chain_usable tls path name host none e f h = absurd cc
chain_usable tls path name host (some []) e f h = absurd cc
chain_usable tls path name host (some (leaf ∷ chain)) e f h =
    let (cert, parsed, checked) = >>=-eq-success (or_failure f (tls.parse_certificate leaf)) _ h in
    (
      some (leaf ∷ chain),
      ap (check_expiry tls host (leaf ∷ chain))
            (or_failure-eq-success f (tls.parse_certificate leaf) parsed)
          ∙ unfold check_expiry in rw (not_expired tls path name cert checked) refl,
    )

-- What `validateCertKey` accepts, for the contents that are read from the two paths.
pub pair_usable :
    (tls : Tls) (files : Files) (cert_path key_path name host cert key : Str) {u : Unit {0}}
    → validate_cert_key tls files cert_path key_path name ≡ success u
    → files.read_file cert_path ≡ some cert
    → files.read_file key_path ≡ some key
    → (chain : Option (List Str)) × (check_chain tls host (tls.x509_key_pair cert key)
        ≡ success chain)
unfolding validate_cert_key
pair_usable tls files cert_path key_path name host cert key h c k =
    chain_usable tls cert_path name host (tls.x509_key_pair cert key) _ _ (rw (c, k) at h)

pub ca_usable :
    (tls : Tls) (files : Files) (ca_path ca : Str) {u : Unit {0}}
    → validate_ca tls files ca_path ≡ success u
    → files.read_file ca_path ≡ some ca
    → tls.append_certs_from_pem ca ≡ true
unfolding validate_ca
ca_usable tls files ca_path ca h r = require-eq-success (tls.append_certs_from_pem ca) _ (rw r at h)

pub validate_parts :
    (tls : Tls) (files : Files) (cert_path key_path ca_path name : Str) (u : Unit {0})
    → validate_cert tls files cert_path key_path ca_path name ≡ success u
    → (check_pair tls files cert_path key_path name ≡ success tt)
      × (check_ca tls files ca_path ≡ success tt)
unfolding validate_cert
validate_parts tls files cert_path key_path ca_path name u h =
    both_ok (check_pair tls files cert_path key_path name) (check_ca tls files ca_path)
      (ground arith)
  where
    both_ok :
        (m k : Checked (Unit {0})) → (m >> k) ≡ success u → (m ≡ success tt) × (k ≡ success tt)
    both_ok (success a) (success b) e = (refl, refl)
    both_ok (success a) (failure f) e = absurd cc
    both_ok (failure f) k e = absurd cc
