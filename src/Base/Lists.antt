-- ===== src/Base/Lists.antt =====
-- Lists measured by native numbers, and Python's sets as lists.
use Prim.Native.Nat.{ℕ, zero, suc, ◌+◌, ◌-◌, ◌≤◌}
use mathlib.Core.Path.{◌≡◌, refl}
use mathlib.Core.Bool.{Bool, true, false, not, ◌&&◌, ◌||◌}
use mathlib.Core.List.{List, [], ◌∷◌, ◌++◌}
use native.Mathlib.Omega.{arith}
use daq.Base.Tests.{if◌then◌else◌}
use daq.Base.Equality.{Eq, ◌==◌}

module _ {ℓ} {A : Type ℓ} where
  abbrev pub length : List A → ℕ
  length [] = 0
  length (x ∷ xs) = suc (length xs)

  pub length-append : (xs ys : List A) → length (xs ++ ys) ≡ length xs + length ys
  length-append [] ys = omega arith
  length-append (x ∷ xs) ys = omega (arith, length-append xs ys)

  -- `[x for x in xs if p(x)]`
  abbrev pub select : (A → Bool) → List A → List A
  select p [] = []
  select p (x ∷ xs) = if p x then x ∷ select p xs else select p xs

  abbrev pub any : (A → Bool) → List A → Bool
  any p [] = false
  any p (x ∷ xs) = p x || any p xs

  abbrev pub all : (A → Bool) → List A → Bool
  all p [] = true
  all p (x ∷ xs) = p x && all p xs

  abbrev pub take : ℕ → List A → List A
  take zero xs = []
  take (suc n) [] = []
  take (suc n) (x ∷ xs) = x ∷ take n xs

  abbrev pub drop : ℕ → List A → List A
  drop zero xs = xs
  drop (suc n) [] = []
  drop (suc n) (x ∷ xs) = drop n xs

  pub take-append : (xs ys : List A) → take (length xs) (xs ++ ys) ≡ xs
  take-append [] ys = refl
  take-append (x ∷ xs) ys = cc (take-append xs ys)

  pub drop-append : (xs ys : List A) → drop (length xs) (xs ++ ys) ≡ ys
  drop-append [] ys = refl
  drop-append (x ∷ xs) ys = drop-append xs ys

  pub append_assoc : (xs ys zs : List A) → (xs ++ ys) ++ zs ≡ xs ++ (ys ++ zs)
  append_assoc [] ys zs = refl
  append_assoc (x ∷ xs) ys zs = cc (append_assoc xs ys zs)

  pub append_nil : (xs : List A) → xs ++ [] ≡ xs
  append_nil [] = refl
  append_nil (x ∷ xs) = cc (append_nil xs)

  -- The truth value of a list.
  abbrev pub nonempty : List A → Bool
  nonempty [] = false
  nonempty (_ ∷ _) = true

  abbrev pub All {κ} : (A → Type κ) → List A → Type κ
  All P [] = Unit
  All P (x ∷ xs) = P x × All P xs

  pub length-select : (p : A → Bool) (xs : List A) → length (select p xs) ≤ length xs
  length-select p [] = omega arith
  length-select p (x ∷ xs) = ground (arith, length-select p xs)

  pub All-append {κ} : (P : A → Type κ) (xs ys : List A) → All P xs → All P ys → All P (xs ++ ys)
  All-append P [] ys hx hy = hy
  All-append P (x ∷ xs) ys hx hy = (hx.0, All-append P xs ys hx.1 hy)

-- `range(lo, hi)` holds `hi - lo` numbers from `lo` on.
abbrev pub count_from : ℕ → ℕ → List ℕ
count_from lo zero = []
count_from lo (suc n) = lo ∷ count_from (lo + 1) n

abbrev pub range : ℕ → ℕ → List ℕ
range lo hi = count_from lo (hi - lo)

module _ {ℓ} {A : Type ℓ} ⦃e : Eq A⦄ where
  -- `a in xs`
  abbrev pub contains : List A → A → Bool
  contains [] a = false
  contains (x ∷ xs) a = a == x || contains xs a

  -- `xs.remove(a)` of a set; the caller tests that the element is there.
  abbrev pub discard : List A → A → List A
  discard [] a = []
  discard (x ∷ xs) a = if a == x then discard xs a else x ∷ discard xs a

  -- `xs.add(a)` of a set.
  abbrev pub add : List A → A → List A
  add xs a = if contains xs a then xs else xs ++ a ∷ []

  -- `xs.remove(a)` of a list: the first occurrence goes.
  abbrev pub remove_first : List A → A → List A
  remove_first [] a = []
  remove_first (x ∷ xs) a = if a == x then xs else x ∷ remove_first xs a

  -- No element occurs twice.
  abbrev pub IsDistinct : List A → Type 0
  IsDistinct [] = Unit
  IsDistinct (x ∷ xs) = (contains xs x ≡ false) × IsDistinct xs

  pub contains-append :
      (xs ys : List A) (a : A) → contains (xs ++ ys) a ≡ (contains xs a || contains ys a)
  contains-append [] ys a = refl
  contains-append (x ∷ xs) ys a = ground (arith, contains-append xs ys a)

  pub contains-discard :
      (xs : List A) (a b : A) → contains (discard xs a) b ≡ (contains xs b && not (b == a))
  contains-discard [] a b = refl
  contains-discard (x ∷ xs) a b =
      ground (arith, contains-discard xs a b, e.beq_iff a x, e.beq_iff b x, e.beq_iff b a)

  pub contains-add : (xs : List A) (a b : A) → contains (add xs a) b ≡ (contains xs b || b == a)
  contains-add xs a b = ground (arith, contains-append xs (a ∷ []) b, e.beq_iff b a)

  pub IsDistinct-append_one :
      (xs : List A) (a : A) → IsDistinct xs → contains xs a ≡ false → IsDistinct (xs ++ a ∷ [])
  IsDistinct-append_one [] a d h = (refl, tt)
  IsDistinct-append_one (x ∷ xs) a d h = ground (
    arith,
    IsDistinct-append_one xs a d.1,
    contains-append xs (a ∷ []) x,
    e.beq_iff a x,
    e.beq_iff x a,
  )

  pub IsDistinct-add : (xs : List A) (a : A) → IsDistinct xs → IsDistinct (add xs a)
  IsDistinct-add xs a d = ground (arith, IsDistinct-append_one xs a d)

  pub IsDistinct-discard : (xs : List A) (a : A) → IsDistinct xs → IsDistinct (discard xs a)
  IsDistinct-discard [] a d = tt
  IsDistinct-discard (x ∷ xs) a d =
      ground (arith, IsDistinct-discard xs a d.1, contains-discard xs a x)
