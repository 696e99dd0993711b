-- ===== src/Nginx/Address/Format.antt =====
-- The text of an address in a request tells the same as the key of the backend.
use mlb_controller.Base.{
  append_assoc, ◌≡◌, refl, sym, ap, ◌∙◌, ◌↔◌, inl, inr, true, false, [], ◌∷◌, ◌++◌, Str, str_eq,
  if◌then◌else◌, Bool-cases, arith,
}
use mlb_controller.Base.Text.{contains_byte}
use mlb_controller.Base.Text.Laws.{contains_byte-append, separator-injective}
use mlb_controller.Base.Decimal.{itoa}
use mlb_controller.Domain.Model.{Backend}
use mlb_controller.Nginx.Address.{clean_ip, backend_key, format_server_addr, no_colon, key_parts}

-- An IP address with brackets around it where it has a colon.
abbrev bracketed : Str → Str
bracketed ip = if contains_byte b':' ip then (b'[' ∷ ip) ++ (b']' ∷ []) else ip

format-eq :
    (b : Backend)
    → format_server_addr b.ip b.port ≡ bracketed (clean_ip b.ip) ++ (b':' ∷ itoa b.port)
unfolding format_server_addr
format-eq b = elim (Bool-cases (contains_byte b':' (clean_ip b.ip))) [
  | inl t ↦ rw t (sym (append_assoc (b'[' ∷ clean_ip b.ip) (b']' ∷ []) (b':' ∷ itoa b.port)))
  | inr f ↦ rw f refl
]

has_colon :
    (ip : Str)
    → contains_byte b':' ip ≡ true
    → contains_byte b':' ((b'[' ∷ ip) ++ (b']' ∷ [])) ≡ true
unfolding contains_byte
has_colon ip h = ground (arith, h, contains_byte-append b':' (b'[' ∷ ip) (b']' ∷ []))

tails : {c d : _} {s t : Str} → c ∷ s ≡ d ∷ t → s ≡ t
tails h = cc

bracketed-injective : (i j : Str) → bracketed i ≡ bracketed j → i ≡ j
bracketed-injective i j h = elim (Bool-cases (contains_byte b':' i)) [
  | inl t ↦ elim (Bool-cases (contains_byte b':' j)) [
    | inl u ↦
        (separator-injective b']' i j [] [] (unfold contains_byte in refl)
          (unfold contains_byte in refl) (tails (rw (t, u) at h))).0
    | inr g ↦ absurd (clash (sym (has_colon i t) ∙ ap (contains_byte b':') (rw (t, g) at h) ∙ g))
  ]
  | inr f ↦ elim (Bool-cases (contains_byte b':' j)) [
    | inl u ↦
        absurd (clash (sym (has_colon j u) ∙ ap (contains_byte b':') (sym (rw (f, u) at h)) ∙ f))
    | inr g ↦ (rw (f, g) at h)
  ]
]
  where
    clash : true ≡ false → ⊥
    clash q = cc

-- Two backends have the same address in requests exactly if they have the same key: neither the
-- brackets nor the colons of an IPv6 address blur that.
pub format_server_addr-backend_key :
    (b1 b2 : Backend)
    → (format_server_addr b1.ip b1.port ≡ format_server_addr b2.ip b2.port)
      ↔ (backend_key b1 ≡ backend_key b2)
format_server_addr-backend_key b1 b2 = (to, from)
  where
    to :
        format_server_addr b1.ip b1.port ≡ format_server_addr b2.ip b2.port
        → backend_key b1 ≡ backend_key b2
    to h =
        let (i, p) =
          separator-injective b':' (bracketed (clean_ip b1.ip)) (bracketed (clean_ip b2.ip))
            (itoa b1.port) (itoa b2.port) (no_colon b1.port) (no_colon b2.port)
            (sym (format-eq b1) ∙ h ∙ format-eq b2) in
        unfold backend_key in
        ap (λ ip. ip ++ (b':' ∷ itoa b1.port))
          (bracketed-injective (clean_ip b1.ip) (clean_ip b2.ip) i)
        ∙ ap (λ s. clean_ip b2.ip ++ (b':' ∷ s)) p

    from :
        backend_key b1 ≡ backend_key b2
        → format_server_addr b1.ip b1.port ≡ format_server_addr b2.ip b2.port
    from h =
        let (i, p) = key_parts b1 b2 h in
        format-eq b1
        ∙ ap (λ ip. bracketed ip ++ (b':' ∷ itoa b1.port)) i
        ∙ ap (λ z. bracketed (clean_ip b2.ip) ++ (b':' ∷ itoa z)) p
        ∙ sym (format-eq b2)
