-- ===== src/Nginx/Address.antt =====
-- The address helpers at the end of internal/adapters/loadbalancer/nginx/nginx.go.
pub mod Format
use mlb_controller.Base.{
  Bool, true, false, ◌||◌, ◌&&◌, ◌≡◌, refl, ap, ◌∙◌, ◌↔◌, ◌∷◌, ◌++◌, Str, ◌==◌, str_eq, nat_eq,
  int_eq, str_beq_iff, beq_ℤ_iff, if◌then◌else◌, arith, ℤ, ℕ,
}
use mlb_controller.Base.Text.{trim, trim_space, contains_byte}
use mlb_controller.Base.Text.Laws.{separator-injective}
use mlb_controller.Base.Decimal.{itoa, is_digit}
use mlb_controller.Base.Decimal.Laws.{itoa-injective, itoa-contains_byte}
use mlb_controller.Domain.Model.{Backend}

unfoldable pub is_bracket : ℕ → Bool
is_bracket c = c == b'[' || c == b']'

unfoldable pub clean_ip : Str → Str
unfolding trim trim_space is_bracket
clean_ip ip = trim is_bracket (trim_space ip)

unfoldable pub same_backend : Backend → Backend → Bool
unfolding clean_ip
same_backend b1 b2 = clean_ip b1.ip == clean_ip b2.ip && b1.port == b2.port

unfoldable pub backend_key : Backend → Str
unfolding clean_ip itoa
backend_key b = clean_ip b.ip ++ (b':' ∷ itoa b.port)

unfoldable pub format_server_addr : Str → ℤ → Str
unfolding clean_ip itoa contains_byte
format_server_addr ip port =
    if contains_byte b':' (clean_ip ip)
    then (b'[' ∷ clean_ip ip) ++ (b']' ∷ b':' ∷ itoa port)
    else clean_ip ip ++ (b':' ∷ itoa port)

both : (i j : Str) (p q : ℤ) → (i == j && p == q) ≡ true → (i ≡ j) × (p ≡ q)
both i j p q h = ground (arith, str_beq_iff i j, beq_ℤ_iff p q)

pub no_colon : (z : ℤ) → contains_byte b':' (itoa z) ≡ false
no_colon z = itoa-contains_byte b':' z (unfold is_digit in refl) refl

-- A key determines the address and the port.
pub key_parts :
    (b1 b2 : Backend)
    → backend_key b1 ≡ backend_key b2
    → (clean_ip b1.ip ≡ clean_ip b2.ip) × (b1.port ≡ b2.port)
unfolding backend_key
key_parts b1 b2 h =
    let (i, p) =
      separator-injective b':' (clean_ip b1.ip) (clean_ip b2.ip) (itoa b1.port) (itoa b2.port)
        (no_colon b1.port) (no_colon b2.port) h in
    (i, itoa-injective b1.port b2.port p)

-- Two backends have the same key exactly if `sameBackend` holds of them: the colons of an IPv6
-- address do not blur the border to the port.
pub backend_key-same_backend :
    (b1 b2 : Backend) → (backend_key b1 ≡ backend_key b2) ↔ (same_backend b1 b2 ≡ true)
unfolding same_backend backend_key
backend_key-same_backend b1 b2 = (to, from)
  where
    to : backend_key b1 ≡ backend_key b2 → same_backend b1 b2 ≡ true
    to h =
        let (i, p) = key_parts b1 b2 h in
        rw ((str_beq_iff (clean_ip b1.ip) (clean_ip b2.ip)).1 i) ((beq_ℤ_iff b1.port b2.port).1 p)

    from : same_backend b1 b2 ≡ true → backend_key b1 ≡ backend_key b2
    from h =
        let (i, p) = both (clean_ip b1.ip) (clean_ip b2.ip) b1.port b2.port h in
        ap (λ ip. ip ++ (b':' ∷ itoa b1.port)) i ∙ ap (λ z. clean_ip b2.ip ++ (b':' ∷ itoa z)) p
