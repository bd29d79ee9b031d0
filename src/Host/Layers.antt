-- ===== src/Host/Layers.antt =====
-- daq/host.py: the configuration of the port wins.
use daq.Config.Tree.{Text, Value, Fields, mapping, find, is_mapping, IsDict, codes}
use daq.Config.Merge.{deep_merge_dict}
use daq.Config.Files.{Disk}
use daq.Config.Flat.{Outcome, done, failed, ◌>>=◌}
use daq.Config.Overlay.{deep_merge_dict-find}
use daq.Config.Includes.{Chain, merge_config-layered, layered}
use daq.Host.Settings.{Folders, load_host_config, load_module_config, type_path, with_run_info}
use daq.Base.{
  ℕ, ◌≤◌, ◌≡◌, subst, true, false, Option, some, List, [], ◌∷◌, arith, nat_eq, string_eq, pair_eq,
}

bind-done :
    {A B : Type 0} (r : Outcome A) (f : A → Outcome B) (b : B)
    → (r >>= f) ≡ done b
    → (a : A) × (f a ≡ done b)
bind-done (done a) f b h = (a, h)
bind-done (failed x) f b h = absurd (cc)

-- The last of the loads of `_load_module_config`.
load_module_config-last :
    (rounds : ℕ) (disk : Disk) (folders : Folders) (base : Fields) (run_info : Option Fields)
    (config : Fields)
    → load_module_config rounds disk folders base run_info ≡ done config
    → (deviced : Fields) × (load_host_config rounds disk deviced folders.port_base
          "port_config.json"
        ≡ done config)
unfolding load_module_config
load_module_config-last rounds disk folders base run_info config h =
    let typing = λ (type_base : Option Text).
      load_host_config rounds disk (with_run_info run_info base) type_base "type_config.json" in
    let devicing = λ (typed : Fields).
      load_host_config rounds disk typed folders.device_base "device_config.json" in
    let porting = λ (deviced : Fields).
      load_host_config rounds disk deviced folders.port_base "port_config.json" in
    let first =
      bind-done (type_path rounds disk folders)
        (λ t. typing t >>= λ typed. devicing typed >>= porting) config h in
    let second = bind-done (typing first.0) (λ typed. devicing typed >>= porting) config first.1 in
    bind-done (devicing second.0) porting config second.1

-- `_load_module_config`, where it succeeds for a port with a configuration file that includes no other:
-- a value of that file that is no dict stands at its path in the result, whatever the base
-- configuration, the run information, the type and the device say.
pub load_module_config-port :
    (rounds : ℕ) (disk : Disk) (folders : Folders) (base : Fields) (run_info : Option Fields)
    (config port_config : Fields) (directory : Text) (path : List Text) (v : Value)
    → load_module_config rounds disk folders base run_info ≡ done config
    → folders.port_base ≡ some directory
    → disk.exists (disk.join directory (codes "port_config.json")) ≡ true
    → Chain disk [] (disk.join directory (codes "port_config.json")) (port_config ∷ [])
    → 1 ≤ rounds
    → IsDict port_config
    → find path (mapping port_config) ≡ some v
    → is_mapping v ≡ false
    → find path (mapping config) ≡ some v
unfolding load_host_config layered
load_module_config-port rounds disk folders base run_info config port_config directory path v h
      at_port there chain enough dict found leaf =
    let final = load_module_config-last rounds disk folders base run_info config h in
    let merge = merge_config-layered disk final.0 rounds chain (omega (arith, enough)) in
    let won = (deep_merge_dict-find path final.0 port_config dict).0 v found leaf in
    let loaded : load_host_config rounds disk final.0 (some directory) "port_config.json"
        ≡ done config =
      subst (λ b. load_host_config rounds disk final.0 b "port_config.json" ≡ done config) at_port
        final.1 in
    let e : deep_merge_dict final.0 port_config ≡ config = ground (arith, loaded, there, merge) in
    subst (λ c. find path (mapping c) ≡ some v) e won
