-- ===== src/Config/Tests.antt =====
-- Two configuration files, one of which includes the other, and one that includes itself.
use daq.Config.Tree.{
  assign, is_mapping, pop, Text, Value, Fields, text, flag, mapping, empty, field, lookup, find,
  codes, text_eq,
}
use daq.Config.Flat.{unfinished, done, failed, flat_item, circular, strip_value}
use daq.Config.Files.{Disk, read_config, merge_config, load_config, including}
use daq.Config.Merge.{deep_merge_dict}
use daq.Config.Overlay.{leaves, deep_merge_dict-find}
use daq.Config.Includes.{
  merge_config-finishes, merge_config-layered, merge_config-circular, Chain, last, next, Circle,
  back, onward, layered,
}
use daq.Config.Items.{apart, is_name_char, flat_item-find, is_name, is_open, dotted}
use daq.Config.Args.{parse_args}
use daq.Base.{
  String, ◌≡◌, refl, ◌≢◌, inl, inr, true, false, ◌||◌, none, some, List, [], ◌∷◌, ◌++◌, arith,
  if◌then◌else◌, Bool-cases, ◌==◌, nat_eq, string_eq, contains, pair_eq,
}

abbrev base_file : Text
base_file = codes "/base.conf"

abbrev site_file : Text
site_file = codes "/site.conf"

abbrev ring_file : Text
ring_file = codes "/ring.conf"

abbrev disk : Disk
disk = record {
  exists = λ file. file == base_file || file == site_file || file == ring_file;
  lines = λ file.
      if file == base_file
      then some (codes "run.mode=fast\n" ∷ codes "run.site=none # later\n" ∷ [])
      else if file == site_file
      then some (codes "include=/base.conf\n" ∷ codes "run.site='lab'\n" ∷ [])
      else if file == ring_file
      then some (codes "include=/ring.conf\n" ∷ [])
      else none;
  yaml = λ file. none;
  abspath = λ file. file;
  dirname = λ file. codes "/";
  join = λ directory name. directory ++ name;
}

abbrev base_config : Fields
base_config =
    field (codes "run")
      (mapping (
        field (codes "mode") (text (codes "fast"))
          (field (codes "site") (text (codes "none")) empty)))
      empty

abbrev site_config : Fields
site_config = field (codes "run") (mapping (field (codes "site") (text (codes "lab")) empty)) empty

read-base_sample : read_config disk base_file ≡ done base_config
unfolding read_config assign
read-base_sample = refl

load-site_sample :
    load_config 3 disk site_file false ≡ done (deep_merge_dict base_config site_config)
unfolding load_config assign deep_merge_dict pop
load-site_sample = refl

args_sample :
    parse_args 3 disk (codes "/base.conf" ∷ codes "-s" ∷ codes "run.mode=slow" ∷ []) empty
    ≡ done (
        field
          (codes "run")
          (mapping (
            field
              (codes "mode")
              (text (codes "slow"))
              (field (codes "site") (text (codes "none")) empty)))
          (field (codes "single_shot") (flag true) empty))
unfolding parse_args deep_merge_dict assign
args_sample = refl

deep_merge_dict-find_example :
    ((v : Value)
      → find (codes "run" ∷ codes "site" ∷ []) (mapping site_config) ≡ some v
      → is_mapping v ≡ false
      → find (codes "run" ∷ codes "site" ∷ []) (mapping (deep_merge_dict base_config site_config))
        ≡ some v)
    × (leaves (codes "run" ∷ codes "site" ∷ []) (mapping site_config) ≡ true
        → find (codes "run" ∷ codes "site" ∷ []) (mapping (deep_merge_dict base_config site_config))
          ≡ find (codes "run" ∷ codes "site" ∷ []) (mapping base_config))
deep_merge_dict-find_example =
    deep_merge_dict-find (codes "run" ∷ codes "site" ∷ []) base_config site_config
      (unfold lookup in (refl, (refl, tt, tt), tt))

flat_item-find_example :
    (new : Fields) × (flat_item base_config
        (dotted (codes "run") (codes "mode" ∷ []))
        (codes "slow")
      ≡ done new)
    × (find (codes "run" ∷ codes "mode" ∷ []) (mapping new) ≡ some (text (codes "slow")))
    × ((p : List Text)
        → apart p (codes "run" ∷ codes "mode" ∷ []) ≡ true
        → find p (mapping new) ≡ find p (mapping base_config))
unfolding is_name strip_value is_open is_name_char
flat_item-find_example =
    flat_item-find base_config (codes "run") (codes "mode" ∷ []) (codes "slow") refl refl refl refl

unread :
    (d : Disk) (f : Text) (config : Fields)
    → d.lines f ≡ none
    → d.yaml f ≡ none
    → read_config d f ≢ done config
unfolding read_config
unread d f config h k = ground (arith, h, k)

abbrev ring_disk : Disk
ring_disk = record disk {
  lines = λ file. if file == ring_file then some (codes "include=/ring.conf\n" ∷ []) else none;
}

ring_known :
    (f : Text) (config : Fields)
    → read_config ring_disk f ≡ done config
    → contains (ring_file ∷ []) f ≡ true
ring_known f config read = elim (Bool-cases (f == ring_file)) [
  | inl known ↦ rw known refl
  | inr other ↦ absurd (unread ring_disk f config (rw other refl) refl read)
]

merge_config-finishes_example : merge_config 2 ring_disk empty ring_file [] ≢ failed unfinished
merge_config-finishes_example =
    merge_config-finishes ring_disk (ring_file ∷ []) empty ring_file ring_known

abbrev with_include : String → Fields → Fields
with_include name config = field (codes "include") (text (codes name)) config

read-site_sample : read_config disk site_file ≡ done (with_include "/base.conf" site_config)
unfolding read_config assign
read-site_sample = refl

read-ring_sample : read_config disk ring_file ≡ done (with_include "/ring.conf" empty)
unfolding read_config assign
read-ring_sample = refl

lookup-with_include_sample :
    (name : String) (config : Fields)
    → lookup (codes "include") (with_include name config) ≡ some (text (codes name))
unfolding lookup
lookup-with_include_sample name config = refl

base_plain_sample : lookup (codes "include") base_config ≡ none
unfolding lookup
base_plain_sample = refl

site-Chain : Chain disk [] site_file (site_config ∷ base_config ∷ [])
unfolding pop including
site-Chain =
    next {config = with_include "/base.conf" site_config} refl read-site_sample
      (lookup-with_include_sample "/base.conf" site_config)
      (last {file = base_file} refl read-base_sample base_plain_sample)

merge_config-layered_example :
    merge_config 2 disk empty site_file [] ≡ done (layered empty (site_config ∷ base_config ∷ []))
merge_config-layered_example = merge_config-layered disk empty 2 site-Chain (omega arith)

ring-Circle : Circle disk [] ring_file 1
unfolding including
ring-Circle =
    onward {config = with_include "/ring.conf" empty} refl read-ring_sample
      (lookup-with_include_sample "/ring.conf" empty)
      (back {file = ring_file} refl read-ring_sample)

merge_config-circular_example : merge_config 2 disk empty ring_file [] ≡ failed circular
merge_config-circular_example = merge_config-circular disk empty 2 ring-Circle (omega arith)
