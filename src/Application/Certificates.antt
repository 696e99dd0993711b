-- ===== src/Application/Certificates.antt =====
-- `FileLoader` of internal/adapters/certificate/loader.go. The files are those of one moment: the
-- loader reads a file after the check of it, and finds it as it was.
pub mod Checks
pub mod Laws
use mlb_controller.Base.{
  ℕ, Bool, true, false, not, ◌&&◌, ◌||◌, List, [], ◌∷◌, Option, none, some, Str, ◌==◌, str_eq, ltb,
  if◌then◌else◌, is_some,
}
use mlb_controller.Base.Fallible.{Fallible, success, failure, ◌>>=◌, ◌>>◌, or_failure}
use mlb_controller.Net.Tls.{Tls, X509Certificate, PublicKey, rsa, ecdsa, ed25519, other_key}

pub record CertificateContent : Type 0 where
  pub cert : Str
  pub key : Str
  pub ca : Str

pub data CertError : Type 0 where
  both_required : CertError
  cert_missing : Str → CertError
  key_missing : Str → CertError
  ca_missing : Str → CertError
  read_failed : Str → CertError
  invalid_pair : CertError
  -- An index out of range: a pair without a certificate.
  panicked : CertError
  parse_failed : CertError
  expired : Str → ℕ → CertError
  not_yet_valid : Str → ℕ → CertError
  host_mismatch : Str → Str → CertError
  weak_rsa : ℕ → CertError
  weak_ecdsa : ℕ → CertError
  unsupported_key : CertError
  invalid_ca : Str → CertError
  invalid_certificate : CertError → CertError
  invalid_ca_file : CertError → CertError

abbrev pub Checked : Type 0 → Type 0
Checked A = Fallible CertError A

abbrev pub require : Bool → CertError → Checked (Unit {0})
require true e = success tt
require false e = failure e

-- The files that exist and can be read, by their paths: os.ReadFile and `util.IsFileExists`.
pub record Files : Type 0 where
  pub exists : Str → Bool
  pub read_file : Str → Option Str

-- The first certificate of the chain.
first_certificate : List Str → Checked Str
first_certificate [] = failure panicked
first_certificate (leaf ∷ chain) = success leaf

unfoldable pub check_key : PublicKey → Checked (Unit {0})
check_key (rsa bits) = require (not (ltb bits 2048)) (weak_rsa bits)
check_key (ecdsa bits) = require (not (ltb bits 256)) (weak_ecdsa bits)
check_key ed25519 = success tt
check_key other_key = failure unsupported_key

-- The checks of the parsed certificate.
unfoldable pub check_certificate : Tls → Str → Str → X509Certificate → Checked (Unit {0})
unfolding check_key
check_certificate tls cert_path hostname cert = do
  require (not (ltb cert.not_after tls.now)) (expired cert_path cert.not_after)
  require (not (ltb tls.now cert.not_before)) (not_yet_valid cert_path cert.not_before)
  require (hostname == [] || cert.verify_hostname hostname) (host_mismatch cert_path hostname)
  check_key cert.public_key

unfoldable pub validate_cert_key : Tls → Files → Str → Str → Str → Checked (Unit {0})
unfolding first_certificate check_certificate
validate_cert_key tls files cert_path key_path hostname = do
  cert_content ← or_failure (read_failed cert_path) (files.read_file cert_path)
  key_content ← or_failure (read_failed key_path) (files.read_file key_path)
  chain ← or_failure invalid_pair (tls.x509_key_pair cert_content key_content)
  leaf ← first_certificate chain
  cert ← or_failure parse_failed (tls.parse_certificate leaf)
  check_certificate tls cert_path hostname cert

unfoldable pub validate_ca : Tls → Files → Str → Checked (Unit {0})
validate_ca tls files ca_path = do
  ca_content ← or_failure (read_failed ca_path) (files.read_file ca_path)
  require (tls.append_certs_from_pem ca_content) (invalid_ca ca_path)

abbrev pub wrap_error : (CertError → CertError) → Checked (Unit {0}) → Checked (Unit {0})
wrap_error f (success u) = success u
wrap_error f (failure e) = failure (f e)

-- Validate certificate and key pair, where there is a path.
unfoldable pub check_pair : Tls → Files → Str → Str → Str → Checked (Unit {0})
unfolding validate_cert_key
check_pair tls files cert_path key_path hostname =
    if cert_path == []
    then success tt
    else wrap_error invalid_certificate (validate_cert_key tls files cert_path key_path hostname)

unfoldable pub check_ca : Tls → Files → Str → Checked (Unit {0})
unfolding validate_ca
check_ca tls files ca_path =
    if ca_path == []
    then success tt
    else if not (files.exists ca_path)
    then failure (ca_missing ca_path)
    else wrap_error invalid_ca_file (validate_ca tls files ca_path)

unfoldable pub validate_cert : Tls → Files → Str → Str → Str → Str → Checked (Unit {0})
unfolding check_pair check_ca
validate_cert tls files cert_path key_path ca_path hostname = do
  require
      (not ((not (cert_path == []) && key_path == []) || (cert_path == [] && not (key_path == []))))
      both_required
  require (cert_path == [] || files.exists cert_path) (cert_missing cert_path)
  require (key_path == [] || files.exists key_path) (key_missing key_path)
  check_pair tls files cert_path key_path hostname
  check_ca tls files ca_path

-- A file, where there is a path for it.
unfoldable pub read_optional : Files → Bool → Str → Checked Str
read_optional files wanted path =
    if wanted then or_failure (read_failed path) (files.read_file path) else success []

unfoldable pub load : Tls → Files → Str → Str → Str → Str → Checked CertificateContent
unfolding validate_cert read_optional
load tls files cert_path key_path ca_path hostname = do
  validate_cert tls files cert_path key_path ca_path hostname
  cert_content ← read_optional files (not (cert_path == [])) cert_path
  key_content ← read_optional files (not (cert_path == [])) key_path
  ca_content ← read_optional files (not (ca_path == [])) ca_path
  success (record { cert = cert_content; key = key_content; ca = ca_content })
