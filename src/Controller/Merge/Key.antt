-- ===== src/Controller/Merge/Key.antt =====
-- The key `fmt.Sprintf("%s:%d", be.IP, be.Port)` of `mergeBackends`, and the order of its sort.
use mlb_controller.Base.{
  Bool, true, false, ◌≡◌, refl, ◌↔◌, Str, ℤ, str_eq, int_eq, str_beq, beq_ℤ, str_beq_iff, beq_ℤ_iff,
  ltb_ℤ, str_ltb, str_ltb_irrefl, str_ltb_trans, str_ltb_total, ◌∷◌, ◌++◌, ◌&&◌, Eq, if◌then◌else◌,
  arith, StrictOrder,
}
use mlb_controller.Base.Decimal.{itoa, is_digit}
use mlb_controller.Base.Decimal.Laws.{itoa-injective, itoa-contains_byte}
use mlb_controller.Base.Text.Laws.{separator-injective}
use mlb_controller.Domain.Model.{Backend}

abbrev pub Address : Type 0
Address = Str × ℤ

abbrev pub address : Backend → Address
address be = (be.ip, be.port)

abbrev pub address_beq : Address → Address → Bool
address_beq (i, p) (j, q) = str_beq i j && beq_ℤ p q

pub address_beq_iff : (a b : Address) → (address_beq a b ≡ true) ↔ (a ≡ b)
address_beq_iff (i, p) (j, q) = ground (arith, str_beq_iff i j, beq_ℤ_iff p q)

instance abbrev pub address_eq : Eq Address
address_eq = record { beq = address_beq; beq_iff = address_beq_iff }

-- The comparison that `sort.Slice` is given.
unfoldable pub address_ltb : Address → Address → Bool
address_ltb (i, p) (j, q) = if str_beq i j then ltb_ℤ p q else str_ltb i j

pub address_ltb_irrefl : (a : Address) → address_ltb a a ≡ false
unfolding address_ltb
address_ltb_irrefl (i, p) = ground (arith, str_beq_iff i i)

pub address_ltb_trans :
    (a b c : Address) → address_ltb a b ≡ true → address_ltb b c ≡ true → address_ltb a c ≡ true
unfolding address_ltb
address_ltb_trans (i, p) (j, q) (k, r) h h' = ground (
  arith,
  str_beq_iff i j,
  str_beq_iff j k,
  str_beq_iff i k,
  str_ltb_trans i j k,
  str_ltb_irrefl i,
  str_ltb_trans j i j,
  str_ltb_irrefl j,
)

pub address_ltb_total : (a b : Address) → address_ltb a b ≡ false → address_ltb b a ≡ false → a ≡ b
unfolding address_ltb
address_ltb_total (i, p) (j, q) h h' =
    ground (arith, str_beq_iff i j, str_beq_iff j i, str_ltb_total i j)

abbrev pub address_order : StrictOrder Address
address_order = record {
  lt = address_ltb;
  irrefl = address_ltb_irrefl;
  trans = address_ltb_trans;
  total = address_ltb_total;
}

-- fmt.Sprintf("%s:%d", be.IP, be.Port)
unfoldable pub address_text : Address → Str
unfolding itoa
address_text (i, p) = i ++ (b':' ∷ itoa p)

-- Different addresses have different keys, although an IPv6 address holds colons itself.
pub address_text-injective : (a b : Address) → address_text a ≡ address_text b → a ≡ b
unfolding address_text is_digit
address_text-injective (i, p) (j, q) h =
    let e =
      separator-injective b':' i j (itoa p) (itoa q) (itoa-contains_byte b':' p refl refl)
        (itoa-contains_byte b':' q refl refl) h in
    ground (arith, e, itoa-injective p q)

pub address_text_beq : (a b : Address) → str_beq (address_text a) (address_text b) ≡ address_beq a b
address_text_beq a b = ground (
  arith,
  str_beq_iff (address_text a) (address_text b),
  address_beq_iff a b,
  address_text-injective a b,
)
