-- ===== src/Net/Query/Laws.antt =====
-- Escaped text is read back, and a query is the concatenation of its pieces.
use mlb_controller.Base.{
  ℕ, ◌+◌, ◌-◌, ◌*◌, ◌/◌, ◌%◌, ◌<◌, ◌≡◌, refl, sym, ap, ◌∙◌, Bool, true, false, not, ◌&&◌, ◌||◌,
  List, [], ◌∷◌, ◌++◌, Option, none, some, Str, codes, ◌==◌, nat_eq, nat_beq, nat_beq_iff, str_eq,
  str_beq_iff, leb, ltb, if◌then◌else◌, All, arith, Bool-cases, inl, inr,
}
use mlb_controller.Base.Text.{contains_byte, split, split_by}
use mlb_controller.Base.Text.Laws.{contains_byte-append}
use mlb_controller.Net.Url.{before, behind}
use mlb_controller.Net.Query.{query_unescape, param, with_param, collect, parse_query}

-- `split` at a separator gives a first piece.
split_first :
    (p : ℕ → Bool) (s : Str) → (first : Str) × (rest : List Str) × (split_by p s ≡ first ∷ rest)
unfolding split_by
split_first p [] = ([], [], refl)
split_first p (c ∷ s) =
    let (first, rest, e) = split_first p s in
    elim (Bool-cases (p c)) [
      | inl t ↦ ([], split_by p s, rw t refl)
      | inr f ↦ (c ∷ first, rest, rw (f, e) refl)
    ]

split-append : (b : ℕ) (s t : Str) → split b (s ++ (b ∷ t)) ≡ split b s ++ split b t
unfolding split
split-append b [] t = rw ((nat_beq_iff b b).1 refl) refl
split-append b (c ∷ s) t =
    let (first, rest, e) = split_first (λ d. d == b) s in
    elim (Bool-cases (c == b)) [
      | inl y ↦ rw y (ap (λ ss. [] ∷ ss) (split-append b s t))
      | inr f ↦ rw (f, split-append b s t, e) refl
    ]

split_single : (b : ℕ) (s : Str) → contains_byte b s ≡ false → split b s ≡ s ∷ []
unfolding split contains_byte
split_single b [] h = refl
split_single b (c ∷ s) h = ground (arith, split_single b s)

with_param-append :
    (o : Option (Str × Str)) (ps qs : List (Str × Str))
    → with_param o (ps ++ qs) ≡ with_param o ps ++ qs
with_param-append none ps qs = refl
with_param-append (some p) ps qs = refl

collect-append : (xs ys : List Str) → collect (xs ++ ys) ≡ collect xs ++ collect ys
unfolding collect
collect-append [] ys = refl
collect-append (x ∷ xs) ys =
    ap (with_param (param x)) (collect-append xs ys)
    ∙ with_param-append (param x) (collect xs) (collect ys)

pub parse_query-append :
    (s t : Str) → parse_query (s ++ (b'&' ∷ t)) ≡ parse_query s ++ parse_query t
unfolding parse_query
parse_query-append s t =
    ap collect (split-append b'&' s t) ∙ collect-append (split b'&' s) (split b'&' t)

pub parse_query_single :
    (s : Str) (p : Str × Str)
    → contains_byte b'&' s ≡ false
    → param s ≡ some p
    → parse_query s ≡ p ∷ []
unfolding parse_query
parse_query_single s p h e = ap collect (split_single b'&' s h) ∙ unfold collect in rw e refl

pub before_absent : (b : ℕ) (s : Str) → contains_byte b s ≡ false → before b s ≡ s
unfolding before contains_byte
before_absent b [] h = refl
before_absent b (c ∷ s) h = ground (arith, before_absent b s)

pub behind_absent : (b : ℕ) (s : Str) → contains_byte b s ≡ false → behind b s ≡ []
unfolding behind contains_byte
behind_absent b [] h = refl
behind_absent b (c ∷ s) h = ground (arith, behind_absent b s)

-- The first separator lies in the first text, or it is the one between the two.
pub behind-append :
    (b : ℕ) (s t : Str) → contains_byte b s ≡ true → behind b (s ++ t) ≡ behind b s ++ t
unfolding behind contains_byte
behind-append b [] t h = absurd cc
behind-append b (c ∷ s) t h = elim (Bool-cases (c == b)) [
  | inl y ↦ rw y refl
  | inr f ↦ rw f (behind-append b s t (ground arith))
]

pub behind_middle : (b : ℕ) (s t : Str) → contains_byte b s ≡ false → behind b (s ++ (b ∷ t)) ≡ t
unfolding behind contains_byte
behind_middle b [] t h = rw ((nat_beq_iff b b).1 refl) refl
behind_middle b (c ∷ s) t h = ground (arith, behind_middle b s t)

before_middle : (b : ℕ) (s t : Str) → contains_byte b s ≡ false → before b (s ++ (b ∷ t)) ≡ s
unfolding before contains_byte
before_middle b [] t h = rw ((nat_beq_iff b b).1 refl) refl
before_middle b (c ∷ s) t h = ground (arith, before_middle b s t)

-- The bytes that would end a piece or a name.
abbrev pub IsName : Str → Type 0
IsName s =
    (contains_byte b'=' s ≡ false)
    × (contains_byte b';' s ≡ false)
    × (contains_byte b'&' s ≡ false)
    × (query_unescape s ≡ some s)
    × ((s == []) ≡ false)

param_lem :
    (name value v : Str)
    → IsName name
    → contains_byte b';' value ≡ false
    → query_unescape value ≡ some v
    → param (name ++ (b'=' ∷ value)) ≡ some (name, v)
unfolding param mlb_controller.Base.str_beq
param_lem name value v n h e =
    rw
      (
        no_semicolon,
        not_empty name n.4,
        before_middle b'=' name value n.0,
        behind_middle b'=' name value n.0,
        n.3,
        e,
      )
      refl
  where
    no_semicolon : contains_byte b';' (name ++ (b'=' ∷ value)) ≡ false
    no_semicolon = contains_byte-append b';' name (b'=' ∷ value) ∙ ground (arith, n.1, h)

    not_empty : (s : Str) → (s == []) ≡ false → (s ++ (b'=' ∷ value) == []) ≡ false
    not_empty [] h = absurd (cc ((str_beq_iff [] []).1 refl, h))
    not_empty (c ∷ s) h = refl

-- A piece of a name and a value is read as these two.
pub parse_query_piece :
    (name value v : Str)
    → IsName name
    → contains_byte b';' value ≡ false
    → contains_byte b'&' value ≡ false
    → query_unescape value ≡ some v
    → parse_query (name ++ (b'=' ∷ value)) ≡ (name, v) ∷ []
parse_query_piece name value v n h k e =
    parse_query_single (name ++ (b'=' ∷ value)) (name, v)
      (contains_byte-append b'&' name (b'=' ∷ value)
        ∙ unfold contains_byte in ground (arith, n.2, k))
      (param_lem name value v n h e)
