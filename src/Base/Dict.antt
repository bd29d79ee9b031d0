-- ===== src/Base/Dict.antt =====
-- A Python dict, in insertion order.
use daq.Base.Tests.{if◌then◌else◌, is_some}
use daq.Base.Equality.{Eq, ◌==◌}
use mathlib.Core.Path.{◌≡◌, refl}
use mathlib.Core.Bool.{Bool}
use mathlib.Core.Option.{Option, none, some}
use mathlib.Core.List.{List, [], ◌∷◌}
use native.Mathlib.Omega.{arith}

abbrev pub Dict {ℓ κ} : Type ℓ → Type κ → Type (ℓ ⊔ κ)
Dict K V = List (K × V)

module _ {ℓ κ} {K : Type ℓ} {V : Type κ} where
  abbrev pub keys : Dict K V → List K
  keys [] = []
  keys ((k, v) ∷ d) = k ∷ keys d

  abbrev pub values : Dict K V → List V
  values [] = []
  values ((k, v) ∷ d) = v ∷ values d

module _ {ℓ κ} {K : Type ℓ} {V : Type κ} ⦃e : Eq K⦄ where
  -- `d.get(k)`
  abbrev pub get : K → Dict K V → Option V
  get k [] = none
  get k ((j, v) ∷ d) = if k == j then some v else get k d

  -- `k in d`
  abbrev pub has : K → Dict K V → Bool
  has k d = is_some (get k d)

  -- `d[k] = v`
  abbrev pub insert : K → V → Dict K V → Dict K V
  insert k v [] = (k, v) ∷ []
  insert k v ((j, w) ∷ d) = if k == j then (j, v) ∷ d else (j, w) ∷ insert k v d

  -- `del d[k]`: a dict has at most one entry for a key.
  abbrev pub erase : K → Dict K V → Dict K V
  erase k [] = []
  erase k ((j, v) ∷ d) = if k == j then erase k d else (j, v) ∷ erase k d

  pub get-insert :
      (j k : K) (v : V) (d : Dict K V) → get j (insert k v d) ≡ (if j == k then some v else get j d)
  get-insert j k v [] = refl
  get-insert j k v ((i, w) ∷ d) =
      ground (arith, get-insert j k v d, e.beq_iff j k, e.beq_iff k i, e.beq_iff j i)

  pub get-erase : (j k : K) (d : Dict K V) → get j (erase k d) ≡ (if j == k then none else get j d)
  get-erase j k [] = ground arith
  get-erase j k ((i, w) ∷ d) =
      ground (arith, get-erase j k d, e.beq_iff j k, e.beq_iff k i, e.beq_iff j i)
