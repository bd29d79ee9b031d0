-- ===== src/Combine/Tests.antt =====
-- bin/python/combine_reports.py: samples.
use daq.Base.{String, ◌≡◌, List, [], ◌∷◌, nat_eq, string_eq}
use daq.Report.Accumulate.{number}
use daq.Combine.{JsonReport, aggregate, no_reports}
use daq.Combine.Numbers.{all_tests, number_tests, number_categories, aggregate_numbers}

abbrev report : String → String → JsonReport
report timestamp result = record {
  timestamp = timestamp;
  missing_tests = "base.gone" ∷ [];
  modules = ("ping", ("base.ping", (result, "Base")) ∷ ("base.extra", ("pass", "Base")) ∷ []) ∷ [];
}

abbrev reports : List JsonReport
reports = report "10:00" "pass" ∷ report "11:00" "fail" ∷ []

aggregate_numbers_example :
    let a = aggregate reports no_reports in
    (number "Base" "pass" a.tests ≡ number_tests "Base" "pass" (all_tests reports))
    × (number "Base" "pass" a.categories ≡ number_categories "Base" "pass" (all_tests reports))
aggregate_numbers_example = aggregate_numbers reports "Base" "pass"
