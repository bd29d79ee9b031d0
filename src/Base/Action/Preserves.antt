-- ===== src/Base/Action/Preserves.antt =====
-- Invariants of method calls: a rule for each way in which a call is put together.
use mathlib.Core.Bool.{Bool, true, false}
use mathlib.Core.Option.{Option, none, some}
use daq.Base.Tests.{if◌then◌else◌}
use daq.Base.Action.{
  Error, Result, ok, err, Action, pure, raise, gets, or_raise, try_except, skip, modify, assert,
  when, maybe, continue, recover, ◌>>=◌,
}

-- Whether the call returns or raises, `P` holds after it if it held before.
pub record Preserves {S A : Type 0} (P : S → Type 0) (m : Action S A) : Type 0 where
  pub from : (s : S) → P s → P (m s).1

module _ {S A : Type 0} {P : S → Type 0} where
  pub Preserves-pure : (a : A) → Preserves P (pure a)
  unfolding pure
  Preserves-pure a = record { from = λ s h. h }

  pub Preserves-raise : (x : Error) → Preserves P (raise {A = A} x)
  unfolding raise
  Preserves-raise x = record { from = λ s h. h }

  pub Preserves-gets : (f : S → A) → Preserves P (gets f)
  unfolding gets
  Preserves-gets f = record { from = λ s h. h }

  pub Preserves-or_raise : (o : Option A) (x : Error) → Preserves P (or_raise o x)
  unfolding or_raise
  Preserves-or_raise none x = record { from = λ s h. h }
  Preserves-or_raise (some a) x = record { from = λ s h. h }

  recovered :
      (r : Result A) (f : Error → Action S A)
      → ((x : Error) → Preserves P (f x))
      → (s : S) → P s
      → P (recover r f s).1
  recovered (ok a) f k s h = h
  recovered (err x) f k s h = (k x).from s h

  pub Preserves-try :
      (m : Action S A) (f : Error → Action S A)
      → Preserves P m
      → ((x : Error) → Preserves P (f x))
      → Preserves P (try_except m f)
  unfolding try_except
  Preserves-try m f km kf = record { from = λ s h. recovered (m s).0 f kf (m s).1 (km.from s h) }

  pub Preserves-if :
      (b : Bool) (m n : Action S A)
      → Preserves P m
      → Preserves P n
      → Preserves P (if b then m else n)
  Preserves-if true m n km kn = km
  Preserves-if false m n km kn = kn

module _ {S : Type 0} {P : S → Type 0} where
  pub Preserves-skip : Preserves P skip
  unfolding skip
  Preserves-skip = record { from = λ s h. h }

  pub Preserves-modify : (f : S → S) → ((s : S) → P s → P (f s)) → Preserves P (modify f)
  unfolding modify
  Preserves-modify f k = record { from = k }

  pub Preserves-assert : (b : Bool) → Preserves P (assert b)
  unfolding assert
  Preserves-assert b = record { from = λ s h. h }

  pub Preserves-when : (b : Bool) (m : Action S (Unit {0})) → Preserves P m → Preserves P (when b m)
  unfolding when
  Preserves-when true m k = record { from = k.from }
  Preserves-when false m k = record { from = λ s h. h }

module _ {S B : Type 0} {P : S → Type 0} where
  pub Preserves-maybe {ℓ} :
      {A : Type ℓ} (o : Option A) (m : Action S B) (f : A → Action S B)
      → Preserves P m
      → ((a : A) → Preserves P (f a))
      → Preserves P (maybe o m f)
  unfolding maybe
  Preserves-maybe none m f km kf = km
  Preserves-maybe (some a) m f km kf = kf a

module _ {S A B : Type 0} {P : S → Type 0} where
  continued :
      (r : Result A) (f : A → Action S B)
      → ((a : A) → Preserves P (f a))
      → (s : S) → P s
      → P (continue r f s).1
  continued (ok a) f k s h = (k a).from s h
  continued (err x) f k s h = h

  pub Preserves-bind :
      (m : Action S A) (f : A → Action S B)
      → Preserves P m
      → ((a : A) → Preserves P (f a))
      → Preserves P (m >>= f)
  unfolding ◌>>=◌
  Preserves-bind m f km kf = record { from = λ s h. continued (m s).0 f kf (m s).1 (km.from s h) }

module _ {S A B : Type 0} {P : S → Type 0} where
  -- What the first call establishes and the rest preserves holds at the end, if the first call cannot
  -- raise before it is established.
  pub Preserves-after :
      (m : Action S A) (f : A → Action S B)
      → ((s : S) → P (m s).1)
      → ((a : A) → Preserves P (f a))
      → (s : S) → P ((m >>= f) s).1
  unfolding ◌>>=◌
  Preserves-after m f km kf s = continued (m s).0 f kf (m s).1 (km s)

pub ruleset preserves_rules = (
  Preserves-pure, Preserves-raise, Preserves-gets, Preserves-or_raise, Preserves-try, Preserves-if,
  Preserves-skip, Preserves-assert, Preserves-when, Preserves-maybe, Preserves-bind,
)
