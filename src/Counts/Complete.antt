-- ===== src/Counts/Complete.antt =====
-- daq/acl_state_collector.py: every rule is accounted for.
use daq.Base.{
  ℕ, zero, suc, String, ◌≡◌, refl, sym, ap, ◌∙◌, inl, inr, Bool, false, ◌&&◌, Option, none, some,
  List, [], ◌∷◌, ◌++◌, arith, if◌then◌else◌, Option-cases, ◌==◌, nat_eq, string_eq, select,
  append_assoc, append_nil, pair_eq,
}
use daq.Base.Dict.{get, get-insert}
use daq.Counts.{
  note_rule, Sample, RuleConfig, CountError, no_sample, RuleCounts, find_sample, countable,
  note_sample, count_rules,
}

abbrev missing_sample : ℕ → String → Option ℕ → List CountError
missing_sample cookie_num description none = no_sample description cookie_num ∷ []
missing_sample cookie_num description (some value) = []

abbrev last_found : String → String → Option ℕ → Option ℕ → Option ℕ
last_found name description none value = value
last_found name description (some found) value = if name == description then some found else value

abbrev has_cookie : ℕ → Option ℕ → Bool
has_cookie cookie_num none = false
has_cookie cookie_num (some c) = c == cookie_num

abbrev first_value : List Sample → Option ℕ
first_value [] = none
first_value (sample ∷ samples) = some sample.value

-- The value of the first of the samples that are of the cookie, of the switch and of the port.
unfoldable pub sample_value : String → ℕ → ℕ → List Sample → Option ℕ
sample_value switch port cookie_num samples = first_value (
    select (λ s. s.dp_name == switch && (s.in_port == port && has_cookie cookie_num s.cookie))
      samples)

-- A rule is counted with a cookie other than 0 and a description that is not empty.
unfoldable pub counted_rule : Option ℕ → Option String → Option (ℕ × String)
counted_rule none description = none
counted_rule (some zero) description = none
counted_rule (some (suc n)) none = none
counted_rule (some (suc n)) (some description) =
    if description == "" then none else some (suc n, description)

find_sample-sample_value :
    (switch : String) (port cookie_num : ℕ) (samples : List Sample)
    → find_sample switch port cookie_num samples ≡ sample_value switch port cookie_num samples
unfolding find_sample sample_value
find_sample-sample_value switch port cookie_num [] = refl
find_sample-sample_value switch port cookie_num (sample ∷ samples) =
    elim (Option-cases sample.cookie) [
      | inl gone ↦ ground (arith, gone, find_sample-sample_value switch port cookie_num samples)
      | inr (c, there) ↦
          ground (arith, there, find_sample-sample_value switch port cookie_num samples)
    ]

countable-counted_rule :
    (rule : RuleConfig) → countable rule ≡ counted_rule rule.cookie rule.description
unfolding countable counted_rule
countable-counted_rule rule = elim (Option-cases rule.cookie) [
  | inl gone ↦ rw gone refl
  | inr (zero, there) ↦ elim (Option-cases rule.description) [
    | inl bare ↦ rw (there, bare) refl
    | inr (d, described) ↦ rw (there, described) refl
  ]
  | inr (suc n, there) ↦ elim (Option-cases rule.description) [
    | inl bare ↦ rw (there, bare) refl
    | inr (d, described) ↦ ground (arith, there, described)
  ]
]

module _ (switch : String) (port : ℕ) (samples : List Sample) where
  abbrev missing_rule : Option (ℕ × String) → List CountError
  missing_rule none = []
  missing_rule (some (cookie_num, description)) =
      missing_sample cookie_num description (sample_value switch port cookie_num samples)

  -- The errors of the rules that are counted and have no sample, in the order of the rules.
  abbrev pub missing_samples : List RuleConfig → List CountError
  missing_samples [] = []
  missing_samples (rule ∷ rules) =
      missing_rule (counted_rule rule.cookie rule.description) ++ missing_samples rules

  abbrev rule_value : String → Option (ℕ × String) → Option ℕ → Option ℕ
  rule_value name none value = value
  rule_value name (some (cookie_num, description)) value =
      last_found name description (sample_value switch port cookie_num samples) value

  -- The value of the last of the rules with the description that have a sample.
  abbrev pub last_value : String → List RuleConfig → Option ℕ → Option ℕ
  last_value name [] value = value
  last_value name (rule ∷ rules) value =
      last_value name rules (rule_value name (counted_rule rule.cookie rule.description) value)

errors-sample :
    (cookie_num : ℕ) (description : String) (value : Option ℕ) (counts : RuleCounts)
    → (note_sample cookie_num description value counts).errors
      ≡ counts.errors ++ missing_sample cookie_num description value
errors-sample cookie_num description none counts = refl
errors-sample cookie_num description (some value) counts = sym (append_nil counts.errors)

rules-sample :
    (name description : String) (cookie_num : ℕ) (value : Option ℕ) (counts : RuleCounts)
    → get name (note_sample cookie_num description value counts).rules
      ≡ last_found name description value (get name counts.rules)
rules-sample name description cookie_num none counts = refl
rules-sample name description cookie_num (some value) counts =
    get-insert name description value counts.rules

module _ (switch : String) (port : ℕ) (samples : List Sample) where
  errors-rule :
      (rule : Option (ℕ × String)) (counts : RuleCounts)
      → (note_rule switch port samples rule counts).errors
        ≡ counts.errors ++ missing_rule switch port samples rule
  errors-rule none counts = sym (append_nil counts.errors)
  errors-rule (some (cookie_num, description)) counts =
      errors-sample cookie_num description _ counts
      ∙ ap (λ v. counts.errors ++ missing_sample cookie_num description v)
          (find_sample-sample_value switch port cookie_num samples)

  rules-rule :
      (name : String) (rule : Option (ℕ × String)) (counts : RuleCounts)
      → get name (note_rule switch port samples rule counts).rules
        ≡ rule_value switch port samples name rule (get name counts.rules)
  rules-rule name none counts = refl
  rules-rule name (some (cookie_num, description)) counts =
      rules-sample name description cookie_num _ counts
      ∙ ap (λ v. last_found name description v (get name counts.rules))
          (find_sample-sample_value switch port cookie_num samples)

-- Every rule is accounted for. The rules of a port with a cookie other than 0 and a description that is not
-- empty are counted: the errors that are added are those of the rules without a sample of their cookie for
-- the switch and the port, in their order, and under each description stands the value of the first such
-- sample of the last such rule that has one, or what stood there before.
pub count_rules_complete :
    (switch : String) (port : ℕ) (samples : List Sample) (rules : List RuleConfig)
    (counts : RuleCounts)
    → let n = count_rules switch port samples rules counts in
      (n.errors ≡ counts.errors ++ missing_samples switch port samples rules)
      × ((name : String)
          → get name n.rules ≡ last_value switch port samples name rules (get name counts.rules))
unfolding count_rules
count_rules_complete switch port samples [] counts = (sym (append_nil counts.errors), λ name. refl)
count_rules_complete switch port samples (rule ∷ rules) counts =
    let k =
      count_rules_complete switch port samples rules
        (note_rule switch port samples (countable rule) counts) in
    rw (sym (countable-counted_rule rule)) (
      k.0
          ∙ ap (λ l. l ++ missing_samples switch port samples rules)
              (errors-rule switch port samples (countable rule) counts)
          ∙ append_assoc counts.errors (missing_rule switch port samples (countable rule))
              (missing_samples switch port samples rules),
      λ name.
          k.1 name
          ∙ ap (last_value switch port samples name rules)
              (rules-rule switch port samples name (countable rule) counts),
    )
