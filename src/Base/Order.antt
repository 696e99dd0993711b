-- ===== src/Base/Order.antt =====
-- Strict total orders, as an interface that the sorting routines take.
use mathlib.Core.Path.{◌≡◌}
use mathlib.Core.Bool.{Bool, true, false}
use mlb_controller.Base.Bytes.{Str, str_ltb, str_ltb_irrefl, str_ltb_trans, str_ltb_total}

pub record StrictOrder (K : Type 0) : Type 0 where
  pub lt : K → K → Bool
  pub irrefl : (a : K) → lt a a ≡ false
  pub trans : (a b c : K) → lt a b ≡ true → lt b c ≡ true → lt a c ≡ true
  pub total : (a b : K) → lt a b ≡ false → lt b a ≡ false → a ≡ b

abbrev pub str_order : StrictOrder Str
str_order = record {
  lt = str_ltb;
  irrefl = str_ltb_irrefl;
  trans = str_ltb_trans;
  total = str_ltb_total;
}
