-- ===== src/Combine.antt =====
-- bin/python/combine_reports.py: the numbers of results over several reports of a device, which `main`
-- aggregates before they are rendered.
pub mod Numbers
mod Tests
use daq.Base.{
  ℕ, zero, suc, ◌+◌, ◌-◌, ◌*◌, ◌/◌, ◌%◌, ◌≤◌, ◌<◌, min, String, ◌≡◌, refl, sym, ap, ◌∙◌, subst, ◌≢◌,
  ◌↔◌, ◌⊎◌, inl, inr, Bool, true, false, not, ◌&&◌, ◌||◌, Option, none, some, List, [], ◌∷◌, ◌++◌,
  map, arith, ltb, leb, nat_beq, if◌then◌else◌, ltb→lt, lt→ltb, leb→le, nat_beq_iff, Bool-cases,
  Option-cases, is_some, Eq, ◌==◌, nat_eq, string_eq, beq_self, beq→eq, beq_false, length,
  length-append, select, any, all, nonempty, All, length-select, All-append, count_from, range,
  contains, discard, add, remove_first, IsDistinct, contains-append, contains-discard, contains-add,
  IsDistinct-append_one, IsDistinct-add, IsDistinct-discard,
}
use daq.Base.Dict.{Dict, keys, values, get, has, insert, erase, get-insert, get-erase}
use daq.Base.Action.{
  Error, assertion, attribute, raised, Result, ok, err, Action, pure, raise, gets, or_raise,
  try_except, skip, modify, assert, when, maybe, ◌>>=◌, ◌>>◌,
}
use daq.Base.Action.Preserves.{
  Preserves, Preserves-modify, Preserves-bind, Preserves-maybe, Preserves-after, preserves_rules,
}
use daq.Report.{count_result, count_expected}

-- A report as it is read: for each module its tests, each with its result and its category.
pub record JsonReport : Type 0 where
  pub timestamp : String
  pub missing_tests : List String
  pub modules : Dict String (Dict String (String × String))

pub record Aggregate : Type 0 where
  pub tests : Dict String (Dict String ℕ)
  pub categories : Dict String (Dict String ℕ)
  pub missing : Dict String ℕ
  pub reports : Dict String Bool

abbrev pub no_reports : Aggregate
no_reports = record { tests = []; categories = []; missing = []; reports = [] }

unfoldable pub count_test : String × (String × String) → Aggregate → Aggregate
unfolding count_expected
count_test (test, (result, category)) a = record a {
  tests = count_expected test result a.tests;
  categories = count_expected category result a.categories;
}

unfoldable pub count_tests : Dict String (String × String) → Aggregate → Aggregate
unfolding count_test
count_tests [] a = a
count_tests (test ∷ tests) a = count_tests tests (count_test test a)

unfoldable pub count_modules : Dict String (Dict String (String × String)) → Aggregate → Aggregate
unfolding count_tests
count_modules [] a = a
count_modules ((name, tests) ∷ modules) a = count_modules modules (count_tests tests a)

unfoldable pub count_missing : List String → Aggregate → Aggregate
unfolding count_result
count_missing [] a = a
count_missing (test ∷ tests) a =
    count_missing tests (record a { missing = count_result test a.missing })

unfoldable pub count_report : JsonReport → Aggregate → Aggregate
unfolding count_modules count_missing
count_report report a = count_modules report.modules (
    count_missing report.missing_tests
      (record a { reports = insert report.timestamp true a.reports }))

unfoldable pub aggregate : List JsonReport → Aggregate → Aggregate
unfolding count_report
aggregate [] a = a
aggregate (report ∷ reports) a = aggregate reports (count_report report a)
