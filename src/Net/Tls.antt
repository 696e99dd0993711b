-- ===== src/Net/Tls.antt =====
-- What the program asks of Go's packages `crypto/tls` and `crypto/x509`. The packages are not modelled:
-- they are parameters of the definitions that use them.
use mlb_controller.Base.{ℕ, Bool, List, Option, Str}

pub data PublicKey : Type 0 where
  -- The number of bits of the modulus.
  rsa : ℕ → PublicKey
  -- The size of the curve's field.
  ecdsa : ℕ → PublicKey
  ed25519 : PublicKey
  other_key : PublicKey

pub record X509Certificate : Type 0 where
  pub not_before : ℕ
  pub not_after : ℕ
  -- VerifyHostname returns nil.
  pub verify_hostname : Str → Bool
  pub public_key : PublicKey

-- `now` is what the clock shows while certificates are looked at.
pub record Tls : Type 0 where
  -- tls.X509KeyPair, with the chain of certificates of the result.
  pub x509_key_pair : Str → Str → Option (List Str)
  pub parse_certificate : Str → Option X509Certificate
  -- Whether AppendCertsFromPEM finds a certificate.
  pub append_certs_from_pem : Str → Bool
  pub now : ℕ
