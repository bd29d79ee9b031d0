-- ===== src/Runner/Results.antt =====
-- daq/runner.py: the result of a device and the exit code of a run.
use daq.Host.{Recorded}
use daq.Runner.{Runner, finalize, combine_results, combine_result_set, is_failure}
use daq.Base.{
  ℕ, zero, suc, String, ◌≡◌, refl, sym, ◌∙◌, ◌↔◌, ◌⊎◌, inl, inr, Bool, true, false, not, ◌&&◌, ◌||◌,
  Option, none, some, List, [], ◌∷◌, ◌++◌, arith, if◌then◌else◌, Bool-cases, Option-cases, is_some,
  ◌==◌, nat_eq, string_eq, beq→eq, length, select, all, nonempty, All, pair_eq,
}
use daq.Base.Dict.{Dict}

-- What a module of the report says: whether it raised, its return code, and the results of its tests.
pub record ModuleResult : Type 0 where
  pub exception : Bool
  pub return_code : Option ℕ
  pub tests : Dict String String

-- The results of a test that leave a run passing.
abbrev pub passes : String × String → Bool
passes entry = entry.1 == "pass" || entry.1 == "skip"

abbrev pub is_zero : Option ℕ → Bool
is_zero none = true
is_zero (some n) = n == 0

-- One round of the loop: whether the module leaves the run passing.
unfoldable pub module_passes : ModuleResult → Bool
module_passes m = not m.exception && is_zero m.return_code && all passes m.tests

unfoldable pub count_processed : Dict String ModuleResult → ℕ
count_processed [] = 0
count_processed ((key, m) ∷ modules) =
    if is_some m.return_code then suc (count_processed modules) else count_processed modules

-- `_calculate_device_result`: true for `PortBehavior.passed`.
unfoldable pub calculate_device_result : List String → Dict String ModuleResult → Bool
unfolding module_passes count_processed
calculate_device_result enabled_tests modules =
    all (λ entry. module_passes entry.1) modules && length enabled_tests == count_processed modules

all-All {ℓ} :
    {A : Type ℓ} (p : A → Bool) (xs : List A) → (all p xs ≡ true) ↔ All (λ x. p x ≡ true) xs
all-All p [] = (λ h. tt, λ h. refl)
all-All p (x ∷ xs) = (λ h. ground (arith, (all-All p xs).0), λ h. ground (arith, (all-All p xs).1))

-- The code of a module or a host is missing or 0.
abbrev pub NoCode : Option ℕ → Type 0
NoCode code = (code ≡ none) ⊎ (code ≡ some 0)

is_zero_lem : (code : Option ℕ) → (is_zero code ≡ true) ↔ NoCode code
is_zero_lem none = (λ h. inl refl, λ h. refl)
is_zero_lem (some zero) = (λ h. inr refl, λ h. refl)
is_zero_lem (some (suc n)) = (
  λ h. absurd (ground arith),
  λ h. absurd (elim h [ inl e ↦ ground arith | inr e ↦ ground arith ]),
)

-- The word of a test is that of a pass or of a skip.
abbrev pub Passing : String × String → Type 0
Passing entry = (entry.1 ≡ "pass") ⊎ (entry.1 ≡ "skip")

passes_lem : (entry : String × String) → (passes entry ≡ true) ↔ Passing entry
passes_lem entry = (
  λ h. elim (Bool-cases (entry.1 == "pass")) [
    | inl e ↦ inl (beq→eq entry.1 "pass" e)
    | inr e ↦ inr (beq→eq entry.1 "skip" (ground (arith, h, e)))
  ],
  λ h. elim h [ inl e ↦ rw e | inr e ↦ rw e ],
)

-- No exception, no code but 0, and every test passed or skipped.
abbrev pub Unfailed : String × ModuleResult → Type 0
Unfailed (key, m) = (m.exception ≡ false) × NoCode m.return_code × All Passing m.tests

All-iff {ℓ κ μ} :
    {A : Type ℓ} (P : A → Type κ) (Q : A → Type μ)
    → ((a : A) → P a ↔ Q a)
    → (xs : List A) → All P xs ↔ All Q xs
All-iff P Q f [] = (λ h. tt, λ h. tt)
All-iff P Q f (x ∷ xs) =
    (λ h. ((f x).0 h.0, (All-iff P Q f xs).0 h.1), λ h. ((f x).1 h.0, (All-iff P Q f xs).1 h.1))

module_passes_lem :
    (entry : String × ModuleResult) → (module_passes entry.1 ≡ true) ↔ Unfailed entry
unfolding module_passes
module_passes_lem (key, m) =
    let tests = all-All passes m.tests in
    let same = All-iff (λ t. passes t ≡ true) Passing passes_lem m.tests in
    let code = is_zero_lem m.return_code in
    (
      λ h. (ground arith, code.0 (ground arith), same.0 (tests.0 (ground arith))),
      λ h. let z = code.1 h.1 in let t = tests.1 (same.1 h.2) in ground (arith, h.0, z, t),
    )

count_lem :
    (modules : Dict String ModuleResult)
    → count_processed modules ≡ length (select (λ e. is_some e.1.return_code) modules)
unfolding count_processed
count_lem [] = refl
count_lem ((key, m) ∷ modules) = ground (arith, count_lem modules)

calculate_split :
    (enabled : List String) (modules : Dict String ModuleResult)
    → (calculate_device_result enabled modules ≡ true)
      ↔ ((all (λ e. module_passes e.1) modules ≡ true) × (length enabled ≡ count_processed modules))
unfolding calculate_device_result
calculate_split enabled modules = ground arith

-- A device passes exactly if no module of its report failed (an exception, a code other than 0, or a
-- test that neither passed nor was skipped) and as many modules gave a code as tests were enabled.
pub calculate_device_result_lem :
    (enabled : List String) (modules : Dict String ModuleResult)
    → (calculate_device_result enabled modules ≡ true) ↔ (
        All Unfailed modules
        × (length enabled ≡ length (select (λ e. is_some e.1.return_code) modules)))
calculate_device_result_lem enabled modules =
    let split = calculate_split enabled modules in
    let every = all-All (λ (e : String × ModuleResult). module_passes e.1) modules in
    let same =
      All-iff (λ (e : String × ModuleResult). module_passes e.1 ≡ true) Unfailed module_passes_lem
        modules in
    (
      λ h. (same.0 (every.0 (split.0 h).0), (split.0 h).1 ∙ count_lem modules),
      λ h. split.1 (every.1 (same.1 h.0), h.1 ∙ sym (count_lem modules)),
    )

-- No exception and no code but 0.
abbrev pub Fine : String × Recorded → Type 0
Fine (name, e) = (e.exception ≡ false) × NoCode e.code

abbrev pub Clean : Dict String Recorded → Type 0
Clean results = All Fine results

is_failure_lem : (entry : String × Recorded) → (is_failure entry.1 ≡ false) ↔ Fine entry
unfolding is_failure
is_failure_lem (name, e) = elim (Option-cases e.code) [
  | inl gone ↦ (λ h. (ground (arith, gone, h), inl gone), λ h. ground (arith, gone, h.0))
  | inr (zero, there) ↦
      (λ h. (ground (arith, there, h), inr there), λ h. ground (arith, there, h.0))
  | inr (suc n, there) ↦
      (λ h. absurd (ground (arith, there, h)), λ h. absurd (elim h.1 [ inl f ↦ cc | inr f ↦ cc ]))
]

clean_lem :
    (results : Dict String Recorded)
    → (nonempty (combine_result_set (some results)) ≡ false) ↔ Clean results
unfolding combine_result_set
clean_lem [] = (λ h. tt, λ h. refl)
clean_lem ((name, e) ∷ results) =
    let first = is_failure_lem (name, e) in
    let rest = clean_lem results in
    (
      λ h. (first.0 (ground arith), rest.0 (ground arith)),
      λ h. ground (arith, first.1 h.0, rest.1 h.1),
    )

nonempty-append {ℓ} :
    {A : Type ℓ} (xs ys : List A) → nonempty (xs ++ ys) ≡ (nonempty xs || nonempty ys)
nonempty-append [] ys = refl
nonempty-append (x ∷ xs) ys = refl

all_clean_lem :
    (sets : Dict ℕ (Dict String Recorded))
    → (nonempty (combine_results sets) ≡ false)
      ↔ All (λ (s : ℕ × Dict String Recorded). Clean s.1) sets
unfolding combine_results
all_clean_lem [] = (λ h. tt, λ h. refl)
all_clean_lem ((device, results) ∷ sets) =
    let e = nonempty-append (combine_result_set (some results)) (combine_results sets) in
    (
      λ h. ground (arith, e, (clean_lem results).0, (all_clean_lem sets).0),
      λ h. ground (arith, e, (clean_lem results).1, (all_clean_lem sets).1),
    )

-- The exit code is 0 exactly if the runner has no exception and no result of any device has an
-- exception or a code other than 0.
pub finalize_zero :
    (exception : Bool) (r : Runner)
    → (finalize exception r ≡ 0)
      ↔ ((exception ≡ false) × All (λ (s : ℕ × Dict String Recorded). Clean s.1) r.result_sets)
unfolding finalize
finalize_zero exception r = (
  λ h. ground (arith, (all_clean_lem r.result_sets).0),
  λ h. ground (arith, (all_clean_lem r.result_sets).1),
)
