-- ===== src/Topology/Interfaces.antt =====
-- daq/topology.py: the interfaces of the two switches.
use daq.Base.{
  ℕ, String, Bool, true, false, not, Option, none, some, List, [], ◌∷◌, if◌then◌else◌, ◌==◌, nat_eq,
  string_eq, range, pair_eq,
}
use daq.Base.Dict.{Dict, insert}
use daq.Topology.{
  Topology, mirror_port, mirror_port_base, local_vlan, dump_vlan, port_set_vlan, get_gw_ports,
  vlan_tags,
}
use daq.Topology.MainRules.{in_port, is_set}

-- The rules that an interface names: those for what comes in at a trunk, for a port set, for the local
-- switch, and for a port of the secondary switch.
pub data AclName : Type 0 where
  incoming_acl local_acl : AclName
  portset_acl port_acl : ℕ → AclName

pub record Interface : Type 0 where
  pub acl_in : Option AclName
  pub native_vlan : Option ℕ
  pub tagged_vlans : Option (List ℕ)
  pub output_only : Bool

abbrev bare : Interface
bare = record { acl_in = none; native_vlan = none; tagged_vlans = none; output_only = false }

-- The settings `run_trigger`: the range of vlans of the triggers and the native vlan.
pub record Settings : Type 0 where
  pub vlan_range : Option (ℕ × ℕ)
  pub native_vlan : Option ℕ

unfoldable pub use_vlan_triggers : Settings → Bool
use_vlan_triggers settings = elim settings.vlan_range [ none ↦ false | some r ↦ not (r.0 == 0) ]

unfoldable pub make_mirror_interface : Interface
make_mirror_interface = record bare { output_only = true }

unfoldable pub make_local_interface : Interface
make_local_interface = record bare { native_vlan = some local_vlan; acl_in = some local_acl }

unfoldable pub make_gw_interface : Settings → ℕ → Interface
unfolding use_vlan_triggers port_set_vlan
make_gw_interface settings port_set = record bare {
  acl_in = some (portset_acl port_set);
  native_vlan =
      some (if use_vlan_triggers settings then dump_vlan else port_set_vlan (some port_set));
}

unfoldable pub make_in_port_interface : Interface
make_in_port_interface = record bare { output_only = true }

unfoldable pub make_pri_trunk_interface : Settings → Topology → Interface
unfolding vlan_tags
make_pri_trunk_interface settings t =
    let trunk = record bare { acl_in = some incoming_acl } in
    if is_set settings.native_vlan
    then record trunk { native_vlan = settings.native_vlan }
    else record trunk { tagged_vlans = some (vlan_tags settings.vlan_range t) }

unfoldable pub make_sec_trunk_interface : Settings → Topology → Interface
unfolding vlan_tags
make_sec_trunk_interface settings t = record bare {
  acl_in = some incoming_acl;
  tagged_vlans = some (vlan_tags settings.vlan_range t);
}

unfoldable pub make_sec_port_interface : Settings → ℕ → Interface
unfolding use_vlan_triggers port_set_vlan
make_sec_port_interface settings port_no = record bare {
  acl_in = some (port_acl port_no);
  native_vlan =
      some (if use_vlan_triggers settings then port_set_vlan (some port_no) else dump_vlan);
}

abbrev pub set_interfaces : List ℕ → Interface → Dict ℕ Interface → Dict ℕ Interface
set_interfaces [] interface interfaces = interfaces
set_interfaces (port ∷ ports) interface interfaces =
    set_interfaces ports interface (insert port interface interfaces)

-- The body of the loop over the port sets.
unfoldable pub add_port_set : Settings → ℕ → Dict ℕ Interface → Dict ℕ Interface
unfolding get_gw_ports make_gw_interface mirror_port make_mirror_interface
add_port_set settings port_set interfaces =
    insert (mirror_port port_set) make_mirror_interface
      (set_interfaces (get_gw_ports port_set) (make_gw_interface settings port_set) interfaces)

unfoldable pub add_port_sets : Settings → List ℕ → Dict ℕ Interface → Dict ℕ Interface
unfolding add_port_set
add_port_sets settings [] interfaces = interfaces
add_port_sets settings (port_set ∷ port_sets) interfaces =
    add_port_sets settings port_sets (add_port_set settings port_set interfaces)

-- The interfaces that do not depend on the port sets.
unfoldable pub base_interfaces : Settings → Topology → Dict ℕ Interface
unfolding make_pri_trunk_interface make_in_port_interface
base_interfaces settings t =
    insert in_port make_in_port_interface (insert 1 (make_pri_trunk_interface settings t) [])

unfoldable pub make_pri_interfaces : Settings → Topology → Dict ℕ Interface
unfolding base_interfaces add_port_sets make_local_interface
make_pri_interfaces settings t =
    insert mirror_port_base make_local_interface
      (add_port_sets settings (range 1 t.sec_port) (base_interfaces settings t))

unfoldable pub add_sec_ports : Settings → List ℕ → Dict ℕ Interface → Dict ℕ Interface
unfolding make_sec_port_interface
add_sec_ports settings [] interfaces = interfaces
add_sec_ports settings (port ∷ ports) interfaces =
    add_sec_ports settings ports (insert port (make_sec_port_interface settings port) interfaces)

unfoldable pub make_sec_interfaces : Settings → Topology → Dict ℕ Interface
unfolding make_sec_trunk_interface add_sec_ports
make_sec_interfaces settings t =
    add_sec_ports settings (range 1 t.sec_port)
      (insert t.sec_port (make_sec_trunk_interface settings t) [])

-- `get_device_intfs`: the configured names come first, then those of the ports without one.
unfoldable pub device_intfs : List String → (ℕ → String) → List ℕ → List String
device_intfs names default_name [] = []
device_intfs [] default_name (port ∷ ports) = default_name port ∷ device_intfs [] default_name ports
device_intfs (name ∷ names) default_name (port ∷ ports) =
    name ∷ device_intfs names default_name ports
