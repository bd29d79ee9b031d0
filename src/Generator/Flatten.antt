-- ===== src/Generator/Flatten.antt =====
-- daq/generator.py: a configuration that includes other files becomes one file.
use daq.Config.Tree.{
  Text, Value, Fields, text, sequence, Items, item, done, empty, field, lookup, assign, pop, codes,
  text_eq,
}
use daq.Base.{
  Option, none, some, List, [], ◌∷◌, ◌++◌, if◌then◌else◌, is_some, ◌==◌, nat_eq, string_eq,
  nonempty, contains, discard, add, pair_eq,
}
use daq.Base.Dict.{Dict, get, erase}

-- `_flatten_include`: `version` stays out, and a part that is already there fails the assertion.
unfoldable pub flatten_include : Fields → Fields → Option Fields
unfolding lookup assign
flatten_include faucet_conf empty = some faucet_conf
flatten_include faucet_conf (field part value target_conf) =
    let next =
      if part == codes "version"
      then some faucet_conf
      else if is_some (lookup part faucet_conf)
      then none
      else some (assign part value faucet_conf) in
    elim next [ none ↦ none | some conf ↦ flatten_include conf target_conf ]

-- The includes that stay: `_INCLUDE_SET`.
abbrev pub include_set : List Text
include_set = codes "uniform.yaml" ∷ []

-- What the loop of `_flatten_configs` changes: the files that were removed are `removed`.
pub record Flattened : Type 0 where
  pub faucet_conf : Fields
  pub configs : Dict Text Fields
  pub includes : List Text
  pub removed : List Text

-- One round of the loop; `_delete_config_file` is noted in `removed`.
unfoldable pub flatten_target : Text → Flattened → Option Flattened
unfolding flatten_include
flatten_target target f = elim (get target f.configs) [
  | none ↦ none
  | some config ↦
      if contains include_set target then some f else elim (flatten_include f.faucet_conf config) [
        | none ↦ none
        | some faucet_conf ↦ some (record {
          faucet_conf = faucet_conf;
          configs = erase target f.configs;
          includes = discard f.includes target;
          removed = f.removed ++ target ∷ [];
        })
      ]
]

unfoldable pub flatten_targets : List Text → Flattened → Option Flattened
unfolding flatten_target
flatten_targets [] f = some f
flatten_targets (target ∷ targets) f = elim (flatten_target target f) [
  | none ↦ none
  | some f' ↦ flatten_targets targets f'
]

unfoldable file_names : Items → Option (List Text)
file_names done = some []
file_names (item (text name) rest) = elim (file_names rest) [
  | none ↦ none
  | some names ↦ some (name ∷ names)
]
file_names (item _ rest) = none

abbrev as_texts : List Text → Items
as_texts [] = done
as_texts (name ∷ names) = item (text name) (as_texts names)

-- The end of `_flatten_configs`, after the loop.
unfoldable finish_flatten : Flattened → Option Flattened
unfolding lookup assign pop
finish_flatten f =
    if is_some (lookup (codes "uniform.yaml") f.faucet_conf)
    then none
    else some (record f {
      faucet_conf =
          if nonempty f.includes
          then assign (codes "include") (sequence (as_texts f.includes)) f.faucet_conf
          else pop (codes "include") f.faucet_conf;
    })

-- The set of the names of a list.
unfoldable as_set : List Text → List Text
as_set [] = []
as_set (name ∷ names) = add (as_set names) name

unfoldable flatten_included : Option Value → Fields → Dict Text Fields → Option Flattened
unfolding file_names as_set flatten_targets finish_flatten
flatten_included none faucet_conf configs =
    some (record { faucet_conf = faucet_conf; configs = configs; includes = []; removed = [] })
flatten_included (some (sequence names)) faucet_conf configs = elim (file_names names) [
  | none ↦ none
  | some targets ↦
      elim (flatten_targets targets (record {
        faucet_conf = faucet_conf;
        configs = configs;
        includes = as_set targets;
        removed = [];
      })) [ none ↦ none | some f ↦ finish_flatten f ]
]
flatten_included (some _) faucet_conf configs = none

-- `_flatten_configs`: none where an assertion fails or a file is missing. The configuration that it
-- changes in place is `faucet_conf` of the result.
unfoldable pub flatten_configs : Dict Text Fields → Option Flattened
unfolding flatten_included lookup
flatten_configs configs = elim (get (codes "faucet.yaml") configs) [
  | none ↦ none
  | some faucet_conf ↦
      if is_some (lookup (codes "include-optional") faucet_conf)
      then none
      else flatten_included (lookup (codes "include") faucet_conf) faucet_conf configs
]
