-- ===== src/Report/Tests.antt =====
-- daq/report.py: samples.
use daq.Base.{String, ◌≡◌, refl, ◌⊎◌, true, none, some, [], ◌∷◌, nat_eq, string_eq, pair_eq}
use daq.Base.Dict.{Dict, get, has}
use daq.Base.Action.{raised, ok, err}
use daq.Report.{Report, TestInfo, TestResult, accumulate_result, roll_category}
use daq.Report.Accumulate.{IsCounted, accumulate_result-IsCounted}
use daq.Report.Category.{counted, overall_of, roll_category-overall_of}

abbrev info : TestInfo
info = record { category = some "Base"; required = some "pass"; expected = none }

abbrev empty : Report
empty = record {
  tests = ("base.ping", info) ∷ ("base.info", info) ∷ [];
  results = [];
  result_headers = [];
  categories = [];
  expected_headers = [];
  expecteds = [];
}

empty-IsCounted : IsCounted empty
empty-IsCounted = λ e x. refl

accumulate_result_example :
    let (answer, r') = accumulate_result "base.ping" "pass" "" (some "ping") empty in
    IsCounted r'
    × (((get "base.ping" empty.results ≡ none)
          × (answer ≡ ok tt)
          × ((t : TestResult) × (get "base.ping" r'.results ≡ some t) × (t.result ≡ "pass")))
        ⊎ ((has "base.ping" empty.results ≡ true) × (answer ≡ err raised) × (r' ≡ empty)))
accumulate_result_example =
    accumulate_result-IsCounted "base.ping" "pass" "" (some "ping") empty empty-IsCounted

abbrev result_of : String → String → String × TestResult
result_of name result = (
  name,
  record {
    result = result;
    test_name = name;
    module_name = none;
    category = "Base";
    expected = "Other";
    result_description = "";
  },
)

-- An `info` before a `pass`.
abbrev results : Dict String TestResult
results = result_of "base.info" "info" ∷ result_of "base.ping" "pass" ∷ []

roll_category_example :
    (roll_category empty "Base" "n/a" results).1.0 ≡ overall_of (counted empty "Base" results)
roll_category_example = roll_category-overall_of empty "Base" results
