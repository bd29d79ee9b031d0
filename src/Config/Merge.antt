-- ===== src/Config/Merge.antt =====
-- daq/configurator.py: `_deep_merge_dict`.
use daq.Config.Tree.{Value, Fields, mapping, empty, field, lookup, assign}
use daq.Base.{Option, some, nat_eq, string_eq, pair_eq}

-- `_deep_merge_dict`, and the value that one key gets.
unfoldable mutual
  unfolding lookup assign

  pub deep_merge_dict : Fields → Fields → Fields
  deep_merge_dict base empty = base
  deep_merge_dict base (field key value adding) =
      deep_merge_dict (assign key (merged value (lookup key base)) base) adding

  pub merged : Value → Option Value → Value
  merged (mapping adding) (some (mapping sub)) = mapping (deep_merge_dict sub adding)
  merged value _ = value
