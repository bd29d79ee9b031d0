-- ===== src/Report/Category.antt =====
-- daq/report.py, _write_category_table: the overall result of a category.
use daq.Base.{
  String, ◌≡◌, refl, sym, ap, ◌∙◌, subst, ◌≢◌, inl, inr, Bool, true, false, ◌&&◌, ◌||◌, none, some,
  List, [], ◌∷◌, arith, if◌then◌else◌, Bool-cases, Option-cases, is_some, ◌==◌, nat_eq, string_eq,
  beq_self, beq→eq, beq_false, all, pair_eq,
}
use daq.Base.Dict.{Dict}
use daq.Report.{get_test_info, TestInfo, roll_category, Report, TestResult, roll, counts_in}

-- Whether a test with this entry counts in a category: it has a required result, and the category is its
-- own, or `Other` where it has none.
unfoldable pub is_rated : String → TestInfo → Bool
is_rated category info =
    is_some info.required
    && (elim info.category [ none ↦ category == "Other" | some own ↦ own == category ])

-- The results of the tests that count in a category, in their order.
abbrev pub counted : Report → String → Dict String TestResult → List String
counted r category [] = []
counted r category ((test_name, result) ∷ results) =
    if is_rated category (get_test_info r test_name)
    then result.result ∷ counted r category results
    else counted r category results

abbrev pub agrees : String → String → Bool
agrees first result = result == first || result == "info"

counts_in-is_rated :
    (r : Report) (category test_name : String)
    → counts_in r category test_name ≡ is_rated category (get_test_info r test_name)
unfolding counts_in is_rated
counts_in-is_rated r category test_name =
    let info = get_test_info r test_name in
    elim (Option-cases info.category) [
      | inl gone ↦
          ground
            (arith, gone, string_eq.beq_iff "Other" category, string_eq.beq_iff category "Other")
      | inr (own, there) ↦ ground (arith, there)
    ]

-- The overall result once there is a rolling one.
abbrev settled : String → List String → String
settled rolling results = if all (agrees rolling) results then rolling else "fail"

abbrev no_result : String
no_result = "n/a"

abbrev fail : String
fail = "fail"

fail-result : fail ≢ no_result
fail-result e = absurd (ground (arith, string_eq.beq_iff fail no_result))

-- After a failure the overall result stays a failure.
settled-fail : (xs : List String) → settled fail xs ≡ fail
settled-fail xs = ground arith

roll_self :
    (x : String) (xs : List String)
    → x ≢ no_result
    → ((roll x x).0 ≢ no_result) × (settled x (x ∷ xs) ≡ settled (roll x x).0 xs)
unfolding roll
roll_self x xs ne = rw (beq_self x) (ne, refl)

roll-other :
    (rolling x : String)
    → rolling ≢ no_result
    → (rolling == x) ≡ false
    → (roll rolling x).0 ≡ (if x == "info" then rolling else fail)
unfolding roll
roll-other rolling x ne other = ground (arith, beq_false rolling no_result ne)

settled-other :
    (rolling x : String) (xs : List String)
    → (rolling == x) ≡ false
    → settled rolling (x ∷ xs) ≡ settled (if x == "info" then rolling else fail) xs
settled-other rolling x xs other =
    ground (arith, settled-fail xs, string_eq.beq_iff x rolling, string_eq.beq_iff rolling x)

roll-settled :
    (rolling x : String) (xs : List String)
    → rolling ≢ no_result
    → ((roll rolling x).0 ≢ no_result) × (settled rolling (x ∷ xs) ≡ settled (roll rolling x).0 xs)
roll-settled rolling x xs ne = elim (Bool-cases (rolling == x)) [
  | inl same ↦
      let e = beq→eq rolling x same in
      subst (λ y. ((roll y x).0 ≢ no_result) × (settled y (x ∷ xs) ≡ settled (roll y x).0 xs))
        (sym e) (roll_self x xs (λ h. ne (e ∙ h)))
  | inr other ↦ rw (roll-other rolling x ne other) (kept, settled-other rolling x xs other)
]
  where
    kept : (if x == "info" then rolling else fail) ≢ no_result
    kept = elim (Bool-cases (x == "info")) [
      | inl info ↦ rw info ne
      | inr plain ↦ rw plain fail-result
    ]

roll-first : (x : String) → roll "n/a" x ≡ (x, x)
unfolding roll
roll-first x = ground arith

abbrev overall : Report → String → String → Dict String TestResult → String
overall r category rolling results = (roll_category r category rolling results).1.0

overall-counts :
    (r : Report) (category rolling name : String) (result : TestResult)
    (results : Dict String TestResult)
    → counts_in r category name ≡ true
    → overall r category rolling ((name, result) ∷ results)
      ≡ overall r category (roll rolling result.result).0 results
unfolding roll_category
overall-counts r category rolling name result results h = rw h

overall-skips :
    (r : Report) (category rolling name : String) (result : TestResult)
    (results : Dict String TestResult)
    → counts_in r category name ≡ false
    → overall r category rolling ((name, result) ∷ results) ≡ overall r category rolling results
unfolding roll_category
overall-skips r category rolling name result results h = rw h

overall-settled :
    (r : Report) (category rolling : String) (results : Dict String TestResult)
    → rolling ≢ no_result
    → overall r category rolling results ≡ settled rolling (counted r category results)
unfolding roll_category
overall-settled r category rolling [] ne = refl
overall-settled r category rolling ((name, result) ∷ results) ne =
    elim (Bool-cases (counts_in r category name)) [
      | inl counts ↦
          let (next, e) = roll-settled rolling result.result (counted r category results) ne in
          overall-counts r category rolling name result results counts
          ∙ overall-settled r category (roll rolling result.result).0 results next
          ∙ sym e
          ∙ rw (sym (counts_in-is_rated r category name), counts) refl
      | inr skips ↦
          overall-skips r category rolling name result results skips
          ∙ overall-settled r category rolling results ne
          ∙ rw (sym (counts_in-is_rated r category name), skips) refl
    ]

-- The overall result of a list of results. The first one that is not `n/a` decides.
unfoldable pub overall_of : List String → String
overall_of [] = "n/a"
overall_of (first ∷ rest) =
    let later = overall_of rest in
    if first == "n/a" then later else if all (agrees first) rest then first else "fail"

-- The overall result of a category is `n/a` if every result that counts in it is `n/a`, or there is none.
-- Else it is the first result that counts and is not `n/a` if every later one is the same or `info`, and
-- `fail` in all other cases. So a `pass` after an `info` fails the category, while an `info` after a `pass`
-- does not. A test counts if it has a required result and the category is its own, or `Other` if it has
-- none.
pub roll_category-overall_of :
    (r : Report) (category : String) (results : Dict String TestResult)
    → (roll_category r category "n/a" results).1.0 ≡ overall_of (counted r category results)
unfolding roll_category overall_of
roll_category-overall_of r category [] = refl
roll_category-overall_of r category ((name, result) ∷ results) =
    let same = counts_in-is_rated r category name in
    elim (Bool-cases (counts_in r category name)) [
      | inl counts ↦
          let step =
            overall-counts r category "n/a" name result results counts
            ∙ ap (λ x. overall r category x.0 results) (roll-first result.result) in
          elim (Bool-cases (result.result == "n/a")) [
            | inl blank ↦
                step
                ∙ ap (λ x. overall r category x results) (beq→eq result.result "n/a" blank)
                ∙ roll_category-overall_of r category results
                ∙ rw (sym same, counts, blank) refl
            | inr told ↦
                step
                ∙ overall-settled r category result.result results (λ e.
                  absurd (ground (arith, told, string_eq.beq_iff result.result no_result, e)))
                ∙ rw (sym same, counts, told) refl
          ]
      | inr skips ↦
          overall-skips r category "n/a" name result results skips
          ∙ roll_category-overall_of r category results
          ∙ rw (sym same, skips) refl
    ]
