-- ===== src/Report.antt =====
-- daq/report.py (ReportGenerator): the results of the tests of a device, and the tables and the overall
-- result that are made of them. A result that the report writes is what its rows are made of; the
-- rendering of a table is text.
pub mod Accumulate
pub mod Category
mod Tests
use daq.Base.{
  ℕ, zero, suc, ◌+◌, ◌-◌, ◌*◌, ◌/◌, ◌%◌, ◌≤◌, ◌<◌, min, String, ◌≡◌, refl, sym, ap, ◌∙◌, subst, ◌≢◌,
  ◌↔◌, ◌⊎◌, inl, inr, Bool, true, false, not, ◌&&◌, ◌||◌, Option, none, some, List, [], ◌∷◌, ◌++◌,
  map, arith, ltb, leb, nat_beq, if◌then◌else◌, ltb→lt, lt→ltb, leb→le, nat_beq_iff, Bool-cases,
  Option-cases, is_some, Eq, ◌==◌, nat_eq, string_eq, beq_self, beq→eq, beq_false, length,
  length-append, select, any, all, nonempty, All, length-select, All-append, count_from, range,
  contains, discard, add, remove_first, IsDistinct, contains-append, contains-discard, contains-add,
  IsDistinct-append_one, IsDistinct-add, IsDistinct-discard,
}
use daq.Base.Dict.{Dict, keys, values, get, has, insert, erase, get-insert, get-erase}
use daq.Base.Action.{
  Error, assertion, missing, attribute, raised, Result, ok, err, Action, pure, raise, gets,
  or_raise, try_except, skip, modify, assert, when, maybe, ◌>>=◌, ◌>>◌,
}
use daq.Base.Action.Preserves.{
  Preserves, Preserves-modify, Preserves-bind, Preserves-maybe, Preserves-after, preserves_rules,
}

-- The entry of a test in the `tests` of the module configuration.
pub record TestInfo : Type 0 where
  pub category : Option String
  pub required : Option String
  pub expected : Option String

-- An entry of `_results`.
pub record TestResult : Type 0 where
  pub result : String
  pub test_name : String
  pub module_name : Option String
  pub category : String
  pub expected : String
  pub result_description : String

pub record Report : Type 0 where
  -- whether and what the configuration says of tests
  pub tests : Dict String TestInfo
  pub results : Dict String TestResult
  pub result_headers : List String
  pub categories : List String
  pub expected_headers : List String
  -- for each expected name the number of each result
  pub expecteds : Dict String (Dict String ℕ)

abbrev pub default_category : String
default_category = "Other"

abbrev pub default_expected : String
default_expected = "Other"

abbrev pub missing_test_result : String
missing_test_result = "gone"

-- `_get_test_info`: a test that is not configured has no entries.
unfoldable pub get_test_info : Report → String → TestInfo
get_test_info r test_name = elim (get test_name r.tests) [
  | none ↦ record { category = none; required = none; expected = none }
  | some info ↦ info
]

abbrev pub or_else : Option String → String → String
or_else none standard = standard
or_else (some name) standard = name

-- `expected[result] += 1`, from 0 if there is no number yet.
unfoldable pub count_result : String → Dict String ℕ → Dict String ℕ
count_result result counts = elim (get result counts) [
  | none ↦ insert result 1 counts
  | some n ↦ insert result (n + 1) counts
]

unfoldable pub count_expected :
    String → String → Dict String (Dict String ℕ) → Dict String (Dict String ℕ)
unfolding count_result
count_expected expected result expecteds = elim (get expected expecteds) [
  | none ↦ insert expected (count_result result []) expecteds
  | some counts ↦ insert expected (count_result result counts) expecteds
]

-- `_accumulate_result`; the assert's message is itself an error, and raises another exception.
unfoldable pub accumulate_result :
    String → String → String → Option String → Action Report (Unit {0})
unfolding ◌>>=◌ get_test_info count_expected
accumulate_result test_name result extra module_name = do
  exists ← gets (λ r. has test_name r.results)
  or_raise (if exists then none else some tt) raised
  info ← gets (λ r. get_test_info r test_name)
  modify (λ r. record r {
    result_headers = add r.result_headers result;
    categories = add r.categories (or_else info.category default_category);
    expected_headers = add r.expected_headers (or_else info.expected default_expected);
    expecteds = count_expected (or_else info.expected default_expected) result r.expecteds;
    results =
        insert test_name
          (record {
            result = result;
            test_name = test_name;
            module_name = module_name;
            category = or_else info.category default_category;
            expected = or_else info.expected default_expected;
            result_description = extra;
          })
          r.results;
  })

-- A line of a module's report that gives a result: the result, the test and the rest.
pub record Line : Type 0 where
  pub result : String
  pub test_name : String
  pub extra : String

-- The loop of `_process_results` over the lines of one report.
unfoldable pub process_lines : String → List Line → Action Report (Unit {0})
unfolding ◌>>=◌ accumulate_result
process_lines module_name [] = skip
process_lines module_name (line ∷ lines) =
    accumulate_result line.test_name line.result line.extra (some module_name)
    >> process_lines module_name lines

-- `_process_results`, of the modules that have a report.
unfoldable pub process_modules : Dict String (List Line) → Action Report (Unit {0})
unfolding ◌>>=◌ process_lines
process_modules [] = skip
process_modules ((module_name, lines) ∷ modules) =
    process_lines module_name lines >> process_modules modules

-- `test_info.get('required')`: an empty string counts as none.
abbrev pub is_required : TestInfo → Bool
is_required info = elim info.required [ none ↦ false | some name ↦ not (name == "") ]

-- The loop of `_find_missing_test_results`, over the configured tests.
unfoldable pub find_missing : List String → Action Report (List String)
unfolding ◌>>=◌ get_test_info accumulate_result
find_missing [] = pure []
find_missing (test_name ∷ test_names) = do
  required ← gets (λ r. is_required (get_test_info r test_name))
  reported ← gets (λ r. has test_name r.results)
  when (required && not reported) (accumulate_result test_name missing_test_result "" none)
  others ← find_missing test_names
  pure (if required && not reported then test_name ∷ others else others)

unfoldable pub find_missing_test_results : Action Report (List String)
unfolding ◌>>=◌ find_missing
find_missing_test_results = do test_names ← gets (λ r. keys r.tests); find_missing test_names

-- `_analyse_and_write_results`: whether the device passes, and whether a required test is gone. The
-- required result of a test, if it has one, is that of its entry.
unfoldable pub meets : Report → String × TestResult → Bool
unfolding get_test_info
meets r (test_name, result) = elim (get_test_info r test_name).required [
  | none ↦ true
  | some required ↦ result.result == required
]

unfoldable pub is_gone : Report → String × TestResult → Bool
unfolding get_test_info
is_gone r (test_name, result) =
    is_some (get_test_info r test_name).required && result.result == "gone"

unfoldable pub analyse : Report → Bool × Bool
unfolding meets is_gone
analyse r = (all (meets r) r.results, any (is_gone r) r.results)

-- The rolling result of a category after one more result, and what is stored as this test's result. A
-- rolling result of `n/a` stands for none so far.
unfoldable pub roll : String → String → String × String
roll rolling result =
    if rolling == result || rolling == "n/a"
    then (result, result)
    else if result == "info"
    then (rolling, "pass")
    else ("fail", result)

-- Whether a test counts in a category: it is in it and has a required result.
unfoldable pub counts_in : Report → String → String → Bool
unfolding get_test_info
counts_in r category test_name =
    or_else (get_test_info r test_name).category default_category == category
    && is_some (get_test_info r test_name).required

-- The loop of `_write_category_table` over the results: the number of tests that count, the overall
-- result and the results that are stored.
unfoldable pub roll_category :
    Report → String → String → Dict String TestResult → ℕ × (String × Dict String TestResult)
unfolding counts_in roll
roll_category r category rolling [] = (0, (rolling, []))
roll_category r category rolling ((test_name, result) ∷ results) =
    let counts = counts_in r category test_name in
    let (rolled, stored) =
      (if counts then roll rolling result.result else (rolling, result.result)) in
    let (total, (overall, rest)) = roll_category r category rolled results in
    (
      if counts then total + 1 else total,
      (overall, (test_name, record result { result = stored }) ∷ rest),
    )

-- The row of a category; the results may be changed by it.
unfoldable pub write_category : String → Action Report (ℕ × String)
unfolding ◌>>=◌ roll_category
write_category category = do
  row ← gets (λ r. roll_category r category "n/a" r.results)
  modify (λ r. record r { results = row.1.1 })
  pure (row.0, row.1.0)

-- The table is a row for each category.
unfoldable pub write_categories : List String → Action Report (List (String × (ℕ × String)))
unfolding ◌>>=◌ write_category
write_categories [] = pure []
write_categories (category ∷ categories) = do
  row ← write_category category
  rows ← write_categories categories
  pure ((category, row) ∷ rows)
