-- ===== src/Combine/Numbers.antt =====
-- bin/python/combine_reports.py: each number is the number of results that it stands for.
use daq.Report.{count_result}
use daq.Base.{
  ℕ, ◌+◌, String, ◌≡◌, Bool, true, ◌&&◌, List, [], ◌∷◌, ◌++◌, arith, ◌==◌, nat_eq, string_eq,
  length, select,
}
use daq.Base.Dict.{Dict, insert}
use daq.Report.Accumulate.{number, number-count}
use daq.Combine.{
  JsonReport, Aggregate, no_reports, count_test, count_tests, count_modules, count_missing,
  count_report, aggregate,
}

-- All tests of the reports, in their order.
abbrev pub tests_of : Dict String (Dict String (String × String)) → Dict String (String × String)
tests_of [] = []
tests_of ((name, tests) ∷ modules) = tests ++ tests_of modules

abbrev pub all_tests : List JsonReport → Dict String (String × String)
all_tests [] = []
all_tests (report ∷ reports) = tests_of report.modules ++ all_tests reports

-- How many of the tests have the name, or are of the category, and have the result.
abbrev pub number_tests : String → String → Dict String (String × String) → ℕ
number_tests t x tests = length (select (λ e. t == e.0 && x == e.1.0) tests)

abbrev pub number_categories : String → String → Dict String (String × String) → ℕ
number_categories c x tests = length (select (λ e. c == e.1.1 && x == e.1.0) tests)

number_select-append :
    (p : String × (String × String) → Bool) (xs ys : Dict String (String × String))
    → length (select p (xs ++ ys)) ≡ length (select p xs) + length (select p ys)
number_select-append p [] ys = omega arith
number_select-append p (e ∷ xs) ys = ground (arith, number_select-append p xs ys)

-- The numbers have grown by those of the tests.
abbrev Grown : Aggregate → Dict String (String × String) → Aggregate → Type 0
Grown a tests b =
    (k x : String)
    → (number k x b.tests ≡ number k x a.tests + number_tests k x tests)
      × (number k x b.categories ≡ number k x a.categories + number_categories k x tests)

count_test-Grown :
    (e : String × (String × String)) (a : Aggregate) → Grown a (e ∷ []) (count_test e a)
unfolding count_test
count_test-Grown (test, (result, category)) a k x = (
  ground (arith, number-count k x test result a.tests),
  ground (arith, number-count k x category result a.categories),
)

Grown-append :
    (a b c : Aggregate) (xs ys : Dict String (String × String))
    → Grown a xs b
    → Grown b ys c
    → Grown a (xs ++ ys) c
Grown-append a b c xs ys f g k x = (
  omega (arith, (f k x).0, (g k x).0, number_select-append (λ e. k == e.0 && x == e.1.0) xs ys),
  omega (arith, (f k x).1, (g k x).1, number_select-append (λ e. k == e.1.1 && x == e.1.0) xs ys),
)

Grown-none : (a : Aggregate) → Grown a [] a
Grown-none a k x = (omega arith, omega arith)

count_tests-Grown :
    (tests : Dict String (String × String)) (a : Aggregate) → Grown a tests (count_tests tests a)
unfolding count_tests
count_tests-Grown [] a = Grown-none a
count_tests-Grown (e ∷ tests) a =
    Grown-append a (count_test e a) (count_tests tests (count_test e a)) (e ∷ []) tests
      (count_test-Grown e a) (count_tests-Grown tests (count_test e a))

count_modules-Grown :
    (modules : Dict String (Dict String (String × String))) (a : Aggregate)
    → Grown a (tests_of modules) (count_modules modules a)
unfolding count_modules
count_modules-Grown [] a = Grown-none a
count_modules-Grown ((name, tests) ∷ modules) a =
    Grown-append a (count_tests tests a) (count_modules modules (count_tests tests a)) tests
      (tests_of modules) (count_tests-Grown tests a)
      (count_modules-Grown modules (count_tests tests a))

count_missing-Grown : (tests : List String) (a : Aggregate) → Grown a [] (count_missing tests a)
unfolding count_missing
count_missing-Grown [] a = Grown-none a
count_missing-Grown (t ∷ tests) a =
    count_missing-Grown tests (record a { missing = count_result t a.missing })

count_report-Grown :
    (report : JsonReport) (a : Aggregate)
    → Grown a (tests_of report.modules) (count_report report a)
unfolding count_report
count_report-Grown report a =
    let b = record a { reports = insert report.timestamp true a.reports } in
    let c = count_missing report.missing_tests b in
    Grown-append a c (count_modules report.modules c) [] (tests_of report.modules)
      (count_missing-Grown report.missing_tests b) (count_modules-Grown report.modules c)

aggregate-Grown :
    (reports : List JsonReport) (a : Aggregate) → Grown a (all_tests reports) (aggregate reports a)
unfolding aggregate
aggregate-Grown [] a = Grown-none a
aggregate-Grown (report ∷ reports) a =
    Grown-append a (count_report report a) (aggregate reports (count_report report a))
      (tests_of report.modules) (all_tests reports) (count_report-Grown report a)
      (aggregate-Grown reports (count_report report a))

-- The number that is rendered for a test, or for a category, and a result is the number of tests of all
-- reports with that name, or of that category, and that result.
pub aggregate_numbers :
    (reports : List JsonReport) (k x : String)
    → let a = aggregate reports no_reports in
      (number k x a.tests ≡ number_tests k x (all_tests reports))
      × (number k x a.categories ≡ number_categories k x (all_tests reports))
aggregate_numbers reports k x =
    let grown = aggregate-Grown reports no_reports k x in
    (omega (arith, grown.0), omega (arith, grown.1))
