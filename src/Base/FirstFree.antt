-- ===== src/Base/FirstFree.antt =====
-- The loop `while n in taken: n += 1`, which daq/runner.py and daq/base_gateway.py share, with a bound
-- on its rounds: it ends at the least number that is not taken.
use Prim.Native.Nat.{ℕ, zero, suc, ◌+◌, ◌≤◌, ◌<◌}
use mathlib.Core.Path.{◌≡◌, refl}
use mathlib.Core.Logic.{inl, inr}
use mathlib.Core.Bool.{true, false}
use mathlib.Core.List.{List, [], ◌∷◌}
use native.Mathlib.Omega.{arith}
use daq.Base.Tests.{leb, if◌then◌else◌, Bool-cases}
use daq.Base.Equality.{nat_eq}
use daq.Base.Lists.{length, select, contains, length-select}

unfoldable pub first_free : ℕ → ℕ → List ℕ → ℕ
first_free zero n taken = n
first_free (suc rounds) n taken =
    let next = first_free rounds (n + 1) taken in if contains taken n then next else n

-- How many of the ids are `n` or more: this falls with each round of the loop.
abbrev above : ℕ → List ℕ → ℕ
above n ids = length (select (leb n) ids)

above_suc : (n : ℕ) (ids : List ℕ) → above (n + 1) ids ≤ above n ids
above_suc n [] = omega arith
above_suc n (x ∷ ids) = ground (arith, above_suc n ids)

above-contains : (n : ℕ) (ids : List ℕ) → contains ids n ≡ true → above (n + 1) ids < above n ids
above-contains n [] h = cc
above-contains n (x ∷ ids) h = ground (arith, above-contains n ids, above_suc n ids)

above-none : (n : ℕ) (ids : List ℕ) → above n ids ≡ 0 → contains ids n ≡ false
above-none n [] h = refl
above-none n (x ∷ ids) h = ground (arith, above-none n ids)

pub first_free-free :
    (rounds n : ℕ) (ids : List ℕ)
    → above n ids ≤ rounds
    → contains ids (first_free rounds n ids) ≡ false
unfolding first_free
first_free-free zero n ids h = above-none n ids (omega arith)
first_free-free (suc rounds) n ids h = elim (Bool-cases (contains ids n)) [
  | inl taken ↦
      rw taken (first_free-free rounds (n + 1) ids (omega (arith, above-contains n ids taken)))
  | inr free ↦ rw free free
]

pub first_free-least :
    (rounds n k : ℕ) (ids : List ℕ) → n ≤ k → k < first_free rounds n ids → contains ids k ≡ true
unfolding first_free
first_free-least zero n k ids low high = absurd (omega arith)
first_free-least (suc rounds) n k ids low high = elim (Bool-cases (contains ids n)) [
  | inl taken ↦ ground (arith, first_free-least rounds (n + 1) k ids)
  | inr free ↦ ground arith
]

pub first_free-le : (rounds n : ℕ) (ids : List ℕ) → n ≤ first_free rounds n ids
unfolding first_free
first_free-le zero n ids = omega arith
first_free-le (suc rounds) n ids = ground (arith, first_free-le rounds (n + 1) ids)

-- The rounds suffice if there are as many as numbers taken.
pub first_free-fresh : (n : ℕ) (ids : List ℕ) → contains ids (first_free (length ids) n ids) ≡ false
first_free-fresh n ids = first_free-free (length ids) n ids (length-select (leb n) ids)
