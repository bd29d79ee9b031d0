-- ===== src/Topology/Traffic.antt =====
-- daq/topology.py, direct_device_traffic and direct_port_traffic.
use daq.Base.{
  ℕ, ◌≡◌, true, false, Option, none, some, arith, ◌==◌, nat_eq, string_eq, beq_self, contains, add,
  contains-add, pair_eq,
}
use daq.Base.Dict.{get, get-insert, get-erase}
use daq.Base.Action.{ok}
use daq.Topology.{
  Topology, Target, direct_port_traffic, populate_set_devices, leave_set, join_set, change_target,
  set_port_vlan, set_of,
}

-- When the traffic of a port is cut off, its target is forgotten, but the device stays in the set of
-- devices of its gateway: it is even added if it was not in it.
pub direct_port_traffic_off :
    (device : ℕ) (vlan : Option ℕ) (device_set port_no : ℕ) (old : Target) (t : Topology)
    → (device_set == 0) ≡ false
    → get port_no t.port_targets ≡ some old
    → let (result, t') = direct_port_traffic device vlan device_set port_no none t in
      (result ≡ ok tt)
      × (get port_no t'.port_targets ≡ none)
      × (contains (set_of device_set t'.set_devices) device ≡ true)
unfolding direct_port_traffic populate_set_devices join_set leave_set change_target set_port_vlan
direct_port_traffic_off device vlan device_set port_no old t positive known = ground (
  arith,
  get-erase port_no port_no t.port_targets,
  beq_self port_no,
  beq_self device_set,
  get-insert device_set device_set (add (set_of device_set t.set_devices) device) t.set_devices,
  contains-add (set_of device_set t.set_devices) device device,
  beq_self device,
)
