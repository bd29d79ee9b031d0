-- ===== src/Base/Action.antt =====
-- A method call: it changes the object's state and returns or raises. What was written before a
-- raise stays written.
pub mod Preserves
use mathlib.Core.Bool.{Bool}
use mathlib.Core.Option.{Option, none, some}
use daq.Base.Tests.{if◌then◌else◌}

-- `assertion`: a failed assert; `missing`: a KeyError; `attribute`: a use of None as an object;
-- `raised`: an exception that the code raises itself or that a called component raises.
pub data Error : Type 0 where
  assertion missing attribute raised : Error

pub data Result (A : Type 0) : Type 0 where
  ok : A → Result A
  err : Error → Result A

abbrev pub Action : Type 0 → Type 0 → Type 0
Action S A = S → Result A × S

module _ {S A : Type 0} where
  pub pure : A → Action S A
  pure a s = (ok a, s)

  pub raise : Error → Action S A
  raise x s = (err x, s)

  pub gets : (S → A) → Action S A
  gets f s = (ok (f s), s)

  pub or_raise : Option A → Error → Action S A
  or_raise none x s = (err x, s)
  or_raise (some a) x s = (ok a, s)

  abbrev recover : Result A → (Error → Action S A) → Action S A
  recover (ok a) handler s = (ok a, s)
  recover (err x) handler s = handler x s

  -- `try: body` / `except Exception: handler`
  pub try_except : Action S A → (Error → Action S A) → Action S A
  try_except body handler s = let (r, s') = body s in recover r handler s'

module _ {S : Type 0} where
  pub skip : Action S (Unit {0})
  skip s = (ok tt, s)

  pub modify : (S → S) → Action S (Unit {0})
  modify f s = (ok tt, f s)

  -- `assert b`
  pub assert : Bool → Action S (Unit {0})
  assert b s = (if b then ok tt else err assertion, s)

  -- `if b: m`
  pub when : Bool → Action S (Unit {0}) → Action S (Unit {0})
  when b m s = if b then m s else (ok tt, s)

-- A split on a value that may be None.
pub maybe {ℓ} : {S B : Type 0} {A : Type ℓ} → Option A → Action S B → (A → Action S B) → Action S B
maybe none m f = m
maybe (some a) m f = f a

module _ {S A B : Type 0} where
  abbrev continue : Result A → (A → Action S B) → Action S B
  continue (ok a) f s = f a s
  continue (err x) f s = (err x, s)

  -- To open this is to open the actions above.
  infixl 5 ◌>>=◌ ◌>>◌
  unfoldable pub ◌>>=◌ : Action S A → (A → Action S B) → Action S B
  unfolding pure raise gets or_raise try_except skip modify assert when maybe
  ◌>>=◌ m f s = let (r, s') = m s in continue r f s'

  abbrev pub ◌>>◌ : Action S A → Action S B → Action S B
  m >> k = m >>= λ _. k
