-- ===== src/Report/Accumulate.antt =====
-- daq/report.py, _accumulate_result: the counts agree with the results.
use daq.Base.{
  ℕ, ◌+◌, String, ◌≡◌, refl, sym, ◌∙◌, ◌⊎◌, inl, inr, Bool, true, ◌&&◌, Option, none, some, [], ◌∷◌,
  arith, if◌then◌else◌, Option-cases, ◌==◌, nat_eq, string_eq, beq_self, length, select,
}
use daq.Base.Dict.{Dict, get, has, insert, get-insert}
use daq.Base.Action.{raised, ok, err}
use daq.Report.{
  default_expected, default_category, get_test_info, or_else, TestResult, accumulate_result, Report,
  count_expected, count_result,
}

-- The number that `_expecteds` has for an expected name and a result.
abbrev pub number_of : String → Dict String ℕ → ℕ
number_of result counts = elim (get result counts) [ none ↦ 0 | some n ↦ n ]

abbrev pub number : String → String → Dict String (Dict String ℕ) → ℕ
number expected result expecteds = elim (get expected expecteds) [
  | none ↦ 0
  | some counts ↦ number_of result counts
]

pub number_of-count :
    (x y : String) (counts : Dict String ℕ)
    → number_of x (count_result y counts)
      ≡ (if x == y then number_of x counts + 1 else number_of x counts)
unfolding count_result
number_of-count x y counts = ground (
  arith,
  get-insert x y 1 counts,
  get-insert x y (number_of y counts + 1) counts,
  string_eq.beq_iff x y,
)

pub number-count :
    (e x f y : String) (d : Dict String (Dict String ℕ))
    → number e x (count_expected f y d)
      ≡ (if e == f && x == y then number e x d + 1 else number e x d)
unfolding count_expected
number-count e x f y d = elim (Option-cases (get f d)) [
  | inl new ↦
      ground
        (arith, get-insert e f (count_result y []) d, number_of-count x y [], string_eq.beq_iff e f)
  | inr (counts, old) ↦ ground (
    arith,
    get-insert e f (count_result y counts) d,
    number_of-count x y counts,
    string_eq.beq_iff e f,
  )
]

abbrev pub matches : String → String → String × TestResult → Bool
matches expected result entry = expected == entry.1.expected && result == entry.1.result

-- How many results have the expected name and the result.
abbrev pub tally : String → String → Dict String TestResult → ℕ
tally expected result results = length (select (matches expected result) results)

tally-insert :
    (e x name : String) (t : TestResult) (d : Dict String TestResult)
    → get name d ≡ none
    → tally e x (insert name t d)
      ≡ (if e == t.expected && x == t.result then tally e x d + 1 else tally e x d)
tally-insert e x name t [] h = ground arith
tally-insert e x name t ((k, v) ∷ d) h = ground (arith, tally-insert e x name t d)

-- The counts agree with the results.
abbrev pub IsCounted : Report → Type 0
IsCounted r = (e x : String) → number e x r.expecteds ≡ tally e x r.results

abbrev entry : String → String → String → Option String → Report → TestResult
entry test_name result extra module_name r = record {
  result = result;
  test_name = test_name;
  module_name = module_name;
  category = or_else (get_test_info r test_name).category default_category;
  expected = or_else (get_test_info r test_name).expected default_expected;
  result_description = extra;
}

accumulate-new :
    (test_name result extra : String) (module_name : Option String) (r : Report)
    → get test_name r.results ≡ none
    → let (answer, r') = accumulate_result test_name result extra module_name r in
      (answer ≡ ok tt)
      × (r'.results ≡ insert test_name (entry test_name result extra module_name r) r.results)
      × (r'.expecteds
          ≡ count_expected
              (or_else (get_test_info r test_name).expected default_expected)
              result
              r.expecteds)
      × (r'.tests ≡ r.tests)
unfolding accumulate_result
accumulate-new test_name result extra module_name r h = rw h (refl, refl, refl, refl)

accumulate-known :
    (test_name result extra : String) (module_name : Option String) (r : Report) (t : TestResult)
    → get test_name r.results ≡ some t
    → accumulate_result test_name result extra module_name r ≡ (err raised, r)
unfolding accumulate_result
accumulate-known test_name result extra module_name r t h = rw h

-- A test that has no result yet gets one, which is found under its name; a test that has one makes the
-- call fail and changes nothing. In both cases the counts agree with the results if they did before.
pub accumulate_result-IsCounted :
    (test_name result extra : String) (module_name : Option String) (r : Report)
    → IsCounted r
    → let (answer, r') = accumulate_result test_name result extra module_name r in
      IsCounted r'
      × (((get test_name r.results ≡ none)
            × (answer ≡ ok tt)
            × ((t : TestResult) × (get test_name r'.results ≡ some t) × (t.result ≡ result)))
          ⊎ ((has test_name r.results ≡ true) × (answer ≡ err raised) × (r' ≡ r)))
accumulate_result-IsCounted test_name result extra module_name r counted =
    elim (Option-cases (get test_name r.results)) [
      | inl new ↦
          let (answer, results, expecteds, _) =
            accumulate-new test_name result extra module_name r new in
          let t = entry test_name result extra module_name r in
          (
            λ e x.
                rw (results, expecteds)
                  (number-count e x t.expected result r.expecteds
                    ∙ rw (counted e x) (sym (tally-insert e x test_name t r.results new))),
            inl (
              new,
              answer,
              (
                t,
                rw results (get-insert test_name test_name t r.results ∙ rw (beq_self test_name)),
                refl,
              ),
            ),
          )
      | inr (t, known) ↦
          let e = accumulate-known test_name result extra module_name r t known in
          rw e (counted, inr (rw known, refl, refl))
    ]
