-- ===== src/Net/Query/Escaping.antt =====
-- `QueryEscape` and `QueryUnescape` of Go's net/url.
use mlb_controller.Base.{
  ℕ, ◌/◌, ◌%◌, ◌<◌, ◌≡◌, refl, sym, ap, ◌∙◌, Bool, true, false, ◌||◌, [], ◌∷◌, ◌++◌, some, Str,
  ◌==◌, nat_eq, nat_beq_iff, str_eq, if◌then◌else◌, All, arith, Bool-cases, inl, inr,
}
use mlb_controller.Base.Text.{contains_byte}
use mlb_controller.Base.Text.Laws.{contains_byte-append}
use mlb_controller.Net.Url.{is_hex}
use mlb_controller.Net.Query.{
  is_unreserved, upper_hex, escape_byte, query_escape, of_hex, prepend, query_unescape,
}

upper_hex_round : (d : ℕ) → d < 16 → (is_hex (upper_hex d) ≡ true) × (of_hex (upper_hex d) ≡ d)
unfolding is_hex upper_hex of_hex
upper_hex_round d h = (ground arith, ground arith)

query_unescape-plain :
    (c : ℕ) (s : Str)
    → (c == b'%') ≡ false
    → query_unescape (c ∷ s) ≡ prepend (if c == b'+' then b' ' else c) (query_unescape s)
unfolding query_unescape
query_unescape-plain c [] h = ground arith
query_unescape-plain c (d ∷ []) h = ground arith
query_unescape-plain c (d ∷ e ∷ s) h = ground arith

-- A byte that is left as it is, or written as an escape.
is_unreserved-plain :
    (c : ℕ) → is_unreserved c ≡ true → ((c == b'%') ≡ false) × ((if c == b'+' then b' ' else c) ≡ c)
unfolding is_unreserved
is_unreserved-plain c h = (ground arith, ground arith)

query_unescape-escaped :
    (c : ℕ) (s : Str)
    → c < 256
    → query_unescape (b'%' ∷ upper_hex (c / 16) ∷ upper_hex (c % 16) ∷ s)
      ≡ prepend c (query_unescape s)
unfolding query_unescape
query_unescape-escaped c s h =
    let (high, high_of) = upper_hex_round (c / 16) (omega arith) in
    let (low, low_of) = upper_hex_round (c % 16) (omega arith) in
    rw (high, low, high_of, low_of) (ap (λ d. prepend d (query_unescape s)) (omega arith))

query_unescape-escape_byte :
    (c : ℕ) (s : Str) → c < 256 → query_unescape (escape_byte c ++ s) ≡ prepend c (query_unescape s)
unfolding escape_byte
query_unescape-escape_byte c s h = elim (Bool-cases (is_unreserved c)) [
  | inl t ↦ rw t (
      query_unescape-plain c s (is_unreserved-plain c t).0
      ∙ ap (λ d. prepend d (query_unescape s)) (is_unreserved-plain c t).1)
  | inr f ↦ elim (Bool-cases (c == b' ')) [
    | inl t ↦
        rw (f, t)
          (query_unescape-plain b'+' s refl
            ∙ ap (λ d. prepend d (query_unescape s)) (sym ((nat_beq_iff c b' ').0 t)))
    | inr g ↦ rw (f, g) (query_unescape-escaped c s h)
  ]
]

-- What `url.QueryEscape` writes, `url.QueryUnescape` reads back.
pub query_unescape-query_escape :
    (s : Str) → All (λ c. c < 256) s → query_unescape (query_escape s) ≡ some s
unfolding query_escape
query_unescape-query_escape [] h = unfold query_unescape in refl
query_unescape-query_escape (c ∷ s) h =
    query_unescape-escape_byte c (query_escape s) h.0
    ∙ ap (prepend c) (query_unescape-query_escape s h.1)

-- The bytes that an escaped text can have.
abbrev pub is_query_byte : ℕ → Bool
is_query_byte c = is_unreserved c || c == b'+' || c == b'%'

escape_byte-contains_byte :
    (b c : ℕ) → c < 256 → is_query_byte b ≡ false → contains_byte b (escape_byte c) ≡ false
unfolding contains_byte escape_byte
escape_byte-contains_byte b c l h = elim (Bool-cases (is_unreserved c)) [
  | inl t ↦ rw t (ground arith)
  | inr f ↦ elim (Bool-cases (c == b' ')) [
    | inl t ↦ rw (f, t) (ground arith)
    | inr g ↦ rw (f, g) (ground arith)
  ]
]

pub query_escape-contains_byte :
    (b : ℕ) (s : Str)
    → All (λ c. c < 256) s
    → is_query_byte b ≡ false
    → contains_byte b (query_escape s) ≡ false
unfolding contains_byte query_escape
query_escape-contains_byte b [] l h = refl
query_escape-contains_byte b (c ∷ s) l h =
    contains_byte-append b (escape_byte c) (query_escape s)
    ∙ rw (escape_byte-contains_byte b c l.0 h, query_escape-contains_byte b s l.1 h)

-- A text with no escape and no plus sign reads as itself.
pub query_unescape_self :
    (s : Str)
    → contains_byte b'%' s ≡ false
    → contains_byte b'+' s ≡ false
    → query_unescape s ≡ some s
unfolding contains_byte
query_unescape_self [] h k = unfold query_unescape in refl
query_unescape_self (c ∷ s) h k =
    query_unescape-plain c s (ground arith) ∙ ground (arith, query_unescape_self s)
