-- ===== src/Config/Files.antt =====
-- daq/configurator.py: configuration files that include each other.
use daq.Config.Tree.{Text, Value, Fields, text, empty, lookup, pop, mapping, codes, text_eq}
use daq.Config.Flat.{
  on_option, Outcome, done, failed, ◌>>=◌, circular, unreadable, unknown_type, unfinished,
  wrong_type, not_found, read_lines,
}
use daq.Config.Merge.{deep_merge_dict}
use daq.Base.{
  ℕ, zero, suc, ◌-◌, Bool, false, ◌&&◌, ◌||◌, Option, none, some, List, [], ◌∷◌, ◌++◌, leb,
  if◌then◌else◌, ◌==◌, nat_eq, string_eq, length, contains, drop, pair_eq,
}

-- What the files and `os.path` answer: `lines` of a text file, none where it cannot be read, `yaml` what
-- `yaml.safe_load` makes of one, and `join` of a directory and a name.
pub record Disk : Type 0 where
  pub exists : Text → Bool
  pub lines : Text → Option (List Text)
  pub yaml : Text → Option Value
  pub abspath : Text → Text
  pub dirname : Text → Text
  pub join : Text → Text → Text

-- `s.endswith(suffix)`
unfoldable pub ends_with : Text → Text → Bool
ends_with s suffix = leb (length suffix) (length s) && drop (length s - length suffix) s == suffix

unfoldable pub as_dict : Value → Outcome Fields
as_dict (mapping config) = done config
as_dict _ = failed wrong_type

-- `_read_flat_config`
unfoldable pub read_flat_config : Disk → Text → Outcome Fields
unfolding read_lines
read_flat_config disk file =
    on_option (disk.lines file) (failed unreadable) (λ lines. read_lines lines empty)

-- `_read_yaml_config`, for a file that holds a dict.
unfoldable pub read_yaml_config : Disk → Text → Outcome Fields
unfolding as_dict
read_yaml_config disk file = on_option (disk.yaml file) (failed unreadable) as_dict

-- `_read_config`
unfoldable pub read_config : Disk → Text → Outcome Fields
unfolding read_yaml_config read_flat_config ends_with
read_config disk file =
    if ends_with file (codes ".yaml") || ends_with file (codes ".json")
    then read_yaml_config disk file
    else if ends_with file (codes ".conf")
    then read_flat_config disk file
    else failed unknown_type

abbrev starts_with_slash : Text → Bool
starts_with_slash [] = false
starts_with_slash (c ∷ s) = c == b'/'

-- The file that an `include` of `file` names.
unfoldable pub including : Disk → Text → Text → Text
including disk file include =
    if starts_with_slash include then include else disk.join (disk.dirname file) include

-- The part of `merge_config` that follows the includes, by what `include` holds in `config`: `follow`
-- merges an included file.
unfoldable pub merge_read :
    (Text → Outcome Fields) → Disk → Fields → Text → Fields → Option Value → Outcome Fields
unfolding including
merge_read follow disk base file config none = done (deep_merge_dict base config)
merge_read follow disk base file config (some (text include)) =
    follow (including disk file include) >>= λ base'.
    done (deep_merge_dict base' (pop (codes "include") config))
merge_read follow disk base file config (some _) = failed wrong_type

-- `merge_config`. `traversed` has the files on the way; a round takes one that is not there yet.
unfoldable pub merge_config : ℕ → Disk → Fields → Text → List Text → Outcome Fields
unfolding read_config merge_read lookup
merge_config zero disk base file traversed = failed unfinished
merge_config (suc rounds) disk base file traversed =
    let file' = disk.abspath file in
    let follow =
      λ (include : Text). merge_config rounds disk base include (traversed ++ file' ∷ []) in
    read_config disk file' >>= λ config.
    if contains traversed file'
    then failed circular
    else merge_read follow disk base file' config (lookup (codes "include") config)

-- `load_config`
unfoldable pub load_config : ℕ → Disk → Text → Bool → Outcome Fields
unfolding merge_config
load_config rounds disk file optional =
    if disk.exists file
    then merge_config rounds disk empty file []
    else if optional
    then done empty
    else failed not_found
