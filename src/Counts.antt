-- ===== src/Counts.antt =====
-- daq/acl_state_collector.py (AclStateCollector) and daq/traffic_analyzer.py (TrafficAnalyzer): how often
-- the rules of the port of a device have matched.
pub mod Complete
mod Tests
use daq.Base.{
  ℕ, zero, suc, ◌+◌, ◌-◌, ◌*◌, ◌/◌, ◌%◌, ◌≤◌, ◌<◌, min, String, ◌≡◌, refl, sym, ap, ◌∙◌, subst, ◌≢◌,
  ◌↔◌, ◌⊎◌, inl, inr, Bool, true, false, not, ◌&&◌, ◌||◌, Option, none, some, List, [], ◌∷◌, ◌++◌,
  map, arith, ltb, leb, nat_beq, if◌then◌else◌, ltb→lt, lt→ltb, leb→le, nat_beq_iff, Bool-cases,
  Option-cases, is_some, Eq, ◌==◌, nat_eq, string_eq, beq_self, beq→eq, beq_false, length,
  length-append, select, any, all, nonempty, All, length-select, All-append, count_from, range,
  contains, discard, add, remove_first, IsDistinct, contains-append, contains-discard, contains-add,
  IsDistinct-append_one, IsDistinct-add, IsDistinct-discard, take, drop, take-append, drop-append,
  append_assoc, append_nil, pair_eq,
}
use daq.Base.Dict.{Dict, keys, values, get, has, insert, erase, get-insert, get-erase}
use daq.Base.Action.{
  Error, assertion, missing, attribute, raised, Result, ok, err, Action, pure, raise, gets,
  or_raise, try_except, skip, modify, assert, when, maybe, ◌>>=◌, ◌>>◌,
}
use daq.Base.Action.Preserves.{
  Preserves, Preserves-modify, Preserves-bind, Preserves-maybe, Preserves-after, Preserves-gets,
  Preserves-if, Preserves-raise, Preserves-assert, preserves_rules,
}

-- A sample of the metric of rules, with its labels; a cookie may be missing.
pub record Sample : Type 0 where
  pub cookie : Option ℕ
  pub dp_name : String
  pub in_port : ℕ
  pub value : ℕ

pub record RuleConfig : Type 0 where
  pub cookie : Option ℕ
  pub description : Option String

-- The rule lists that are applied to each port of each switch.
abbrev pub SwitchConfigs : Type 0
SwitchConfigs = Dict String (Dict ℕ (List (List RuleConfig)))

pub data CountError : Type 0 where
  no_switch no_port no_acl many_acls : CountError
  no_sample : String → ℕ → CountError

pub record RuleCounts : Type 0 where
  pub rules : Dict String ℕ
  pub errors : List CountError

-- The value of the first sample of the rule at the port.
unfoldable pub find_sample : String → ℕ → ℕ → List Sample → Option ℕ
find_sample switch port cookie_num [] = none
find_sample switch port cookie_num (sample ∷ samples) =
    let rest = find_sample switch port cookie_num samples in
    if (elim sample.cookie [ none ↦ false | some c ↦ c == cookie_num ])
      && (sample.dp_name == switch && sample.in_port == port)
    then some sample.value
    else rest

-- The cookie and the description, which are not counted if they are None or empty.
unfoldable pub countable : RuleConfig → Option (ℕ × String)
countable rule = elim rule.cookie [
  | none ↦ none
  | some cookie_num ↦ (elim rule.description [
    | none ↦ none
    | some description ↦
        if cookie_num == 0 || description == "" then none else some (cookie_num, description)
  ])
]

abbrev pub note_sample : ℕ → String → Option ℕ → RuleCounts → RuleCounts
note_sample cookie_num description none counts = record counts {
  errors = counts.errors ++ no_sample description cookie_num ∷ [];
}
note_sample cookie_num description (some value) counts = record counts {
  rules = insert description value counts.rules;
}

abbrev pub note_rule : String → ℕ → List Sample → Option (ℕ × String) → RuleCounts → RuleCounts
note_rule switch port samples none counts = counts
note_rule switch port samples (some (cookie_num, description)) counts =
    note_sample cookie_num description (find_sample switch port cookie_num samples) counts

-- `_get_port_rule_counts`
unfoldable pub count_rules : String → ℕ → List Sample → List RuleConfig → RuleCounts → RuleCounts
unfolding find_sample countable
count_rules switch port samples [] counts = counts
count_rules switch port samples (rule ∷ rules) counts =
    count_rules switch port samples rules (note_rule switch port samples (countable rule) counts)

abbrev pub no_counts : RuleCounts
no_counts = record { rules = []; errors = [] }

abbrev only_error : CountError → RuleCounts
only_error x = record no_counts { errors = x ∷ [] }

-- `_verify_port_acl_config`
unfoldable pub verify_port_acl_config : SwitchConfigs → String → ℕ → CountError ⊎ List RuleConfig
verify_port_acl_config configs switch port = elim (get switch configs) [
  | none ↦ inl no_switch
  | some ports ↦ (elim (get port ports) [
    | none ↦ inl no_port
    | some [] ↦ inl no_acl
    | some (acl ∷ []) ↦ inr acl
    | some (acl ∷ other ∷ acls) ↦ inl many_acls
  ])
]

unfoldable pub get_port_rule_counts : SwitchConfigs → String → ℕ → List Sample → RuleCounts
unfolding verify_port_acl_config count_rules
get_port_rule_counts configs switch port samples =
    elim (verify_port_acl_config configs switch port) [
      | inl x ↦ only_error x
      | inr rules ↦ count_rules switch port samples rules no_counts
    ]

-- A sample of the metric of learned addresses; its value is the port.
pub record Learned : Type 0 where
  pub dp_name : String
  pub eth_src : String
  pub value : ℕ

-- A placement is the port of the secondary switch at which a device has been learned.
pub record Analyzer : Type 0 where
  pub duts : List String
  pub device_placements : Dict String ℕ
  pub switch_configs : SwitchConfigs
  pub run : Bool

abbrev pub sec_switch : String
sec_switch = "sec"

-- With the samples of the metric, where the collector gives them.
unfoldable pub device_rule_counts :
    SwitchConfigs → Dict String ℕ → List Sample → Dict String RuleCounts
unfolding get_port_rule_counts
device_rule_counts configs [] samples = []
device_rule_counts configs ((mac, port) ∷ placements) samples =
    (mac, get_port_rule_counts configs sec_switch port samples)
    ∷ device_rule_counts configs placements samples

-- `_get_device_rule_counts`: none stands for the error that no metric is available.
unfoldable pub get_device_rule_counts :
    Option (List Sample) → Analyzer → Option (Dict String RuleCounts)
unfolding device_rule_counts
get_device_rule_counts none a = none
get_device_rule_counts (some samples) a =
    some (device_rule_counts a.switch_configs a.device_placements samples)

unfoldable pub place_devices : List String → List Learned → Dict String ℕ → Dict String ℕ
place_devices duts [] placements = placements
place_devices duts (sample ∷ samples) placements = place_devices duts samples (
    if sample.dp_name == sec_switch && contains duts sample.eth_src
    then insert sample.eth_src sample.value placements
    else placements)

-- `_update_device_placements`: the outer none says that the metrics cannot be read, and the inner one that
-- the metric is not among them. Without the metrics the code goes on to a name that is not bound, and
-- without the metric to the samples of None.
unfoldable pub update_device_placements :
    Option (Option (List Learned)) → Action Analyzer (Unit {0})
unfolding place_devices
update_device_placements none a = (err raised, a)
update_device_placements (some none) a = (err attribute, record a { device_placements = [] })
update_device_placements (some (some samples)) a =
    (ok tt, record a { device_placements = place_devices a.duts samples [] })

-- `_periodic_tasks`: whether the next round is scheduled. `configs` is what the configuration file holds,
-- where it can be read.
unfoldable pub periodic_tasks :
    Option SwitchConfigs → Option (Option (List Learned)) → Action Analyzer Bool
unfolding update_device_placements ◌>>=◌
periodic_tasks configs metrics = gets (λ a. a.run) >>= λ run.
    if run
    then (or_raise configs raised >>= λ switch_configs.
        modify (λ a. record a { switch_configs = switch_configs })
        >> update_device_placements metrics
        >> pure true)
    else pure false
