-- ===== src/Host/Settings.antt =====
-- daq/host.py: the configuration of a device, from the files of its type, the device and its port.
use daq.Config.Tree.{
  Text, Value, Fields, text, mapping, empty, lookup, assign, codes, text_eq, is_true,
}
use daq.Config.Files.{Disk, merge_config}
use daq.Config.Flat.{Outcome, done, failed, ◌>>=◌, outdated, wrong_type}
use daq.Base.{
  ℕ, String, ◌≡◌, Bool, false, ◌||◌, Option, none, some, List, [], ◌∷◌, arith, if◌then◌else◌, ◌==◌,
  nat_eq, string_eq, beq_self, pair_eq,
}

-- `site_path`, `_device_base` and `_port_base`, where there are such directories.
pub record Folders : Type 0 where
  pub site_path : Text
  pub device_base : Option Text
  pub port_base : Option Text

-- `_load_config`: a file of the old name stops the load, a missing file or directory adds nothing.
unfoldable pub load_host_config : ℕ → Disk → Fields → Option Text → String → Outcome Fields
unfolding merge_config
load_host_config rounds disk config none filename = done config
load_host_config rounds disk config (some path) filename =
    let file = disk.join path (codes filename) in
    if disk.exists (disk.join path (codes "module_config.json"))
    then failed outdated
    else if disk.exists file
    then merge_config rounds disk config file []
    else done config

-- The type that a device configuration names; an empty one counts as none.
unfoldable device_type : Option Value → Outcome (Option Text)
device_type (some (text [])) = done none
device_type (some (text (c ∷ s))) = done (some (c ∷ s))
device_type none = done none
device_type (some value) = if is_true value then failed wrong_type else done none

abbrev path_of : Disk → Text → Option Text → Option Text
path_of disk site_path none = none
path_of disk site_path (some kind) =
    some (disk.abspath (disk.join (disk.join site_path (codes "device_types")) kind))

-- `_type_path`
unfoldable pub type_path : ℕ → Disk → Folders → Outcome (Option Text)
unfolding load_host_config device_type lookup
type_path rounds disk folders =
    load_host_config rounds disk empty folders.device_base "device_config.json" >>= λ dev_config.
    device_type (lookup (codes "device_type") dev_config) >>= λ kind.
    done (path_of disk folders.site_path kind)

-- `_merge_run_info`, where it is called: `info` is what the run has to say.
unfoldable pub with_run_info : Option Fields → Fields → Fields
unfolding assign
with_run_info none config = config
with_run_info (some info) config = assign (codes "run_info") (mapping info) config

-- `_load_module_config` on the base configuration of the runner; `run_info` is what `_merge_run_info`
-- adds, if it is called.
unfoldable pub load_module_config : ℕ → Disk → Folders → Fields → Option Fields → Outcome Fields
unfolding type_path load_host_config with_run_info
load_module_config rounds disk folders base run_info =
    let config = with_run_info run_info base in
    type_path rounds disk folders >>= λ type_base.
    load_host_config rounds disk config type_base "type_config.json" >>= λ typed.
    load_host_config rounds disk typed folders.device_base "device_config.json" >>= λ deviced.
    load_host_config rounds disk deviced folders.port_base "port_config.json"

-- `write_config` of a file: it is there afterwards, with the content that YAML reads from its JSON.
unfoldable pub write_config : Fields → Text → Disk → Disk
write_config config file disk = record disk {
  exists = λ f. f == file || disk.exists f;
  yaml = λ f. if f == file then some (mapping config) else disk.yaml f;
}

-- `_dev_config_updated` of a device with a directory, up to the load of `reload_config`.
unfoldable pub dev_config_updated :
    ℕ → Disk → Folders → Text → Fields → Fields → Option Fields → Outcome Fields
unfolding write_config load_module_config
dev_config_updated rounds disk folders path dev_config base run_info =
    load_module_config rounds
      (write_config dev_config (disk.join path (codes "module_config.json")) disk) folders base
      run_info

-- `get_test_config` on `_loaded_config`
unfoldable pub get_test_config : Fields → Text → Outcome (Option Value)
unfolding lookup
get_test_config config test = elim (lookup (codes "modules") config) [
  | some (mapping modules) ↦ done (lookup test modules)
  | _ ↦ failed wrong_type
]

-- A value of the configuration of a test, `standard` where the test has none.
unfoldable of_test : String → Option Value → Option Value → Outcome (Option Value)
unfolding lookup
of_test key standard none = done standard
of_test key standard (some (mapping empty)) = done standard
of_test key standard (some (mapping config)) = elim (lookup (codes key) config) [
  | none ↦ done standard
  | some value ↦ done (some value)
]
of_test key standard (some value) = if is_true value then failed wrong_type else done standard

-- `_get_test_timeout`
unfoldable pub get_test_timeout : Fields → Option Value → Text → Outcome (Option Value)
unfolding get_test_config of_test
get_test_timeout config standard test =
    if test == codes "hold"
    then done none
    else get_test_config config test >>= of_test "timeout_sec" standard

-- `get_port_flap_timeout`
unfoldable pub get_port_flap_timeout : Fields → Text → Outcome (Option Value)
unfolding get_test_config of_test
get_port_flap_timeout config test =
    get_test_config config test >>= of_test "port_flap_timeout_sec" none

abbrev is_on : Option Value → Bool
is_on none = false
is_on (some value) = is_true value

-- `_test_enabled`
unfoldable pub test_enabled : Fields → Text → Outcome Bool
unfolding get_test_config of_test
test_enabled config test =
    get_test_config config test >>= of_test "enabled" none >>= λ value. done (is_on value)

-- `_get_enabled_tests` of the runner's test list.
unfoldable pub get_enabled_tests : Fields → List Text → Outcome (List Text)
unfolding test_enabled
get_enabled_tests config [] = done []
get_enabled_tests config (test ∷ tests) = test_enabled config test >>= λ enabled.
    get_enabled_tests config tests >>= λ rest. done (if enabled then test ∷ rest else rest)

-- An update of the configuration of a device from the cloud always fails: it is written under the old
-- name, which the load that follows refuses, whatever the files hold.
pub dev_config_updated_fails :
    (rounds : ℕ) (disk : Disk) (folders : Folders) (path : Text) (dev_config base : Fields)
    (run_info : Option Fields)
    → folders.device_base ≡ some path
    → dev_config_updated rounds disk folders path dev_config base run_info ≡ failed outdated
unfolding dev_config_updated
dev_config_updated_fails rounds disk folders path dev_config base run_info h =
    rw h (ground (arith, beq_self (disk.join path (codes "module_config.json"))))
