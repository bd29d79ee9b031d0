-- ===== src/Counts/Tests.antt =====
-- daq/acl_state_collector.py: samples.
use daq.Base.{ℕ, String, ◌≡◌, none, some, List, [], ◌∷◌, ◌++◌, nat_eq, string_eq, pair_eq}
use daq.Base.Dict.{get}
use daq.Counts.{Sample, RuleConfig, no_counts, count_rules}
use daq.Counts.Complete.{missing_samples, last_value, count_rules_complete}

abbrev sample : Sample
sample = record { cookie = some 7; dp_name = "sec"; in_port = 3; value = 41 }

abbrev rule : ℕ → String → RuleConfig
rule cookie description = record { cookie = some cookie; description = some description }

abbrev rules : List RuleConfig
rules = rule 7 "dns" ∷ rule 8 "ntp" ∷ []

count_rules_example :
    let n = count_rules "sec" 3 (sample ∷ []) rules no_counts in
    (n.errors ≡ [] ++ missing_samples "sec" 3 (sample ∷ []) rules)
    × ((name : String) → get name n.rules ≡ last_value "sec" 3 (sample ∷ []) name rules none)
count_rules_example = count_rules_complete "sec" 3 (sample ∷ []) rules no_counts
