-- ===== src/Controller/Env/Keeps.antt =====
-- Invariants of the controller's operations, one rule for each way to build an operation.
use mlb_controller.Base.{Bool, true, false, if◌then◌else◌}
use mlb_controller.Controller.Env.{
  Controller, Error, Action, Result, ok, err, continue, ◌>>=◌, pure, raise,
}

-- Whether it succeeds or fails, the operation keeps `P`.
pub record Keeps {A : Type 0} (P : Controller → Type 0) (m : Action A) : Type 0 where
  pub at : (c : Controller) → P c → P (m c).1

module _ (P : Controller → Type 0) where
  pub Keeps-pure : {A : Type 0} (a : A) → Keeps P (pure a)
  unfolding pure
  Keeps-pure a = record { at = λ c h. h }

  pub Keeps-raise : {A : Type 0} (e : Error) → Keeps P (raise {A = A} e)
  unfolding raise
  Keeps-raise e = record { at = λ c h. h }

  continue-Keeps :
      {A B : Type 0} (f : A → Action B) (r : Result A × Controller)
      → ((a : A) → Keeps P (f a))
      → P r.1
      → P (continue r f).1
  continue-Keeps f (ok a, c) k h = (k a).at c h
  continue-Keeps f (err e, c) k h = h

  pub Keeps-bind :
      {A B : Type 0} (m : Action A) (f : A → Action B)
      → Keeps P m
      → ((a : A) → Keeps P (f a))
      → Keeps P (m >>= f)
  unfolding ◌>>=◌
  Keeps-bind m f k l = record { at = λ c h. continue-Keeps f (m c) l (k.at c h) }

  pub Keeps-if :
      {A : Type 0} (b : Bool) (m n : Action A)
      → Keeps P m
      → Keeps P n
      → Keeps P (if b then m else n)
  Keeps-if true m n k l = k
  Keeps-if false m n k l = l
