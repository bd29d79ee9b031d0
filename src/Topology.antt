-- ===== src/Topology.antt =====
-- daq/topology.py (FaucetTopology): which ports and vlans belong to a gateway set, and how the traffic of
-- a device and of a port is directed. The rules that are generated from this state are not modelled.
pub mod Sets
pub mod Traffic
pub mod Rules
pub mod MainRules
pub mod Templates
pub mod PortRules
pub mod Interfaces
pub mod Mirrored
pub mod Uplink
pub mod Wired
mod Tests
use daq.Base.{
  ℕ, zero, suc, ◌+◌, ◌-◌, ◌*◌, ◌/◌, ◌%◌, ◌≤◌, ◌<◌, min, String, ◌≡◌, refl, sym, ap, ◌∙◌, subst, ◌≢◌,
  ◌↔◌, ◌⊎◌, inl, inr, Bool, true, false, not, ◌&&◌, ◌||◌, Option, none, some, List, [], ◌∷◌, ◌++◌,
  map, arith, ltb, leb, nat_beq, if◌then◌else◌, ltb→lt, lt→ltb, leb→le, nat_beq_iff, Bool-cases,
  Option-cases, is_some, Eq, ◌==◌, nat_eq, string_eq, beq_self, beq→eq, beq_false, length,
  length-append, select, any, all, nonempty, All, length-select, All-append, count_from, range,
  contains, discard, add, remove_first, IsDistinct, contains-append, contains-discard, contains-add,
  IsDistinct-append_one, IsDistinct-add, IsDistinct-discard,
}
use daq.Base.Dict.{Dict, keys, values, get, has, insert, erase, get-insert, get-erase}
use daq.Base.Action.{
  Error, assertion, missing, attribute, raised, Result, ok, err, Action, pure, raise, gets,
  or_raise, try_except, skip, modify, assert, when, maybe, ◌>>=◌, ◌>>◌,
}
use daq.Base.Action.Preserves.{
  Preserves, Preserves-modify, Preserves-bind, Preserves-maybe, Preserves-after, preserves_rules,
}

-- A target of `direct_port_traffic`.
pub record Target : Type 0 where
  pub port : ℕ
  pub group : String
  pub fake : Bool
  pub port_set : ℕ
  pub mac : String

pub record Topology : Type 0 where
  pub sec_port : ℕ
  pub port_targets : Dict ℕ Target
  pub set_devices : Dict ℕ (List ℕ)
  -- the native vlans of the interfaces of the primary and of the secondary switch
  pub pri_vlans : Dict ℕ (Option ℕ)
  pub sec_vlans : Dict ℕ (Option ℕ)

abbrev pub mirror_port_base : ℕ
mirror_port_base = 1000

abbrev pub local_vlan : ℕ
local_vlan = 1000

abbrev pub dump_vlan : ℕ
dump_vlan = 999

unfoldable pub mirror_port : ℕ → ℕ
mirror_port input_port = mirror_port_base + input_port

-- No port set, or 0, gives the vlan that is dumped.
unfoldable pub port_set_vlan : Option ℕ → ℕ
port_set_vlan none = dump_vlan
port_set_vlan (some port_set) = if port_set == 0 then dump_vlan else local_vlan + port_set

unfoldable pub get_gw_ports : ℕ → List ℕ
get_gw_ports port_set = range (10 * port_set) (10 * port_set + 6)

unfoldable pub get_bcast_ports : ℕ → List ℕ
unfolding get_gw_ports
get_bcast_ports port_set = 1 ∷ mirror_port_base ∷ get_gw_ports port_set

-- `_vlan_tags`; the range of the vlan triggers, if it starts with a vlan that is not 0.
unfoldable pub vlan_tags : Option (ℕ × ℕ) → Topology → List ℕ
vlan_tags none t = range local_vlan (local_vlan + t.sec_port)
vlan_tags (some (start, end)) t =
    if start == 0
    then range local_vlan (local_vlan + t.sec_port)
    else range start (end + 1) ++ local_vlan ∷ []

abbrev pub set_of : ℕ → Dict ℕ (List ℕ) → List ℕ
set_of port_set sets = elim (get port_set sets) [ none ↦ [] | some devices ↦ devices ]

abbrev is_zero : Option ℕ → Bool
is_zero none = true
is_zero (some n) = n == 0

-- The device leaves the set; a set or a device that is not there raises a KeyError.
unfoldable pub leave_set : ℕ → ℕ → Action Topology (Unit {0})
unfolding ◌>>=◌
leave_set device device_set = do
  found ← gets (λ t. get device_set t.set_devices)
  devices ← or_raise found missing
  or_raise (if contains devices device then some tt else none) missing
  modify (λ t. record t { set_devices = insert device_set (discard devices device) t.set_devices })

unfoldable pub join_set : ℕ → ℕ → Action Topology (Unit {0})
unfolding ◌>>=◌
join_set device device_set = modify (λ t. record t {
  set_devices = insert device_set (add (set_of device_set t.set_devices) device) t.set_devices;
})

-- `_populate_set_devices` of a device with its vlan and the port set of its gateway: the vlan that the
-- set gets.
unfoldable pub populate_set_devices : ℕ → Option ℕ → ℕ → Option ℕ → Action Topology (Option ℕ)
unfolding ◌>>=◌ leave_set join_set
populate_set_devices device vlan device_set port_set = do
  assert (is_zero port_set || (elim port_set [ none ↦ false | some s ↦ s == device_set ]))
  if is_zero port_set then leave_set device device_set else join_set device device_set
  active ← gets (λ t. nonempty (set_of device_set t.set_devices))
  pure (if active then vlan else some dump_vlan)

abbrev pub set_vlans : List ℕ → Option ℕ → Dict ℕ (Option ℕ) → Dict ℕ (Option ℕ)
set_vlans [] vlan vlans = vlans
set_vlans (p ∷ ps) vlan vlans = set_vlans ps vlan (insert p vlan vlans)

-- `direct_device_traffic`; the interfaces of a gateway's ports are there from the start.
unfoldable pub direct_device_traffic : ℕ → Option ℕ → ℕ → Option ℕ → Action Topology (Unit {0})
unfolding ◌>>=◌ populate_set_devices get_gw_ports
direct_device_traffic device vlan device_set port_set = do
  directed ← populate_set_devices device vlan device_set port_set
  assert (not (is_zero directed))
  modify (λ t. record t { pri_vlans = set_vlans (get_gw_ports device_set) directed t.pri_vlans })

abbrev same_target : Target → Target → Bool
same_target a b =
    a.port == b.port
    && a.group == b.group
    && (if a.fake then b.fake else not b.fake)
    && a.port_set == b.port_set
    && a.mac == b.mac

unfoldable pub set_port_vlan : ℕ → Option ℕ → Action Topology (Unit {0})
unfolding ◌>>=◌ port_set_vlan
set_port_vlan port_no port_set =
    modify
      (λ t. record t { sec_vlans = insert port_no (some (port_set_vlan port_set)) t.sec_vlans })

-- The branches of `direct_port_traffic`, on the target that the port has and the new one. A lookup of
-- a port with no target raises a KeyError.
unfoldable pub change_target : ℕ → Option Target → Option Target → Action Topology (Unit {0})
unfolding ◌>>=◌ set_port_vlan
change_target port_no (some old) none = do
  modify (λ t. record t { port_targets = erase port_no t.port_targets })
  set_port_vlan port_no none
change_target port_no none (some target) = do
  modify (λ t. record t { port_targets = insert port_no target t.port_targets })
  set_port_vlan port_no (some target.port_set)
change_target port_no none none = raise missing
change_target port_no (some old) (some target) = assert (same_target old target)

unfoldable pub direct_port_traffic :
    ℕ → Option ℕ → ℕ → ℕ → Option Target → Action Topology (Unit {0})
unfolding ◌>>=◌ populate_set_devices change_target
direct_port_traffic device vlan device_set port_no target = do
  populate_set_devices device vlan device_set (some device_set)
  old ← gets (λ t. get port_no t.port_targets)
  change_target port_no old target

-- `device_group_size`: the number of devices in the specification with the group, and 1 if there is none
-- or no specification.
unfoldable pub device_group_size : Option (Dict String (Option String)) → String → ℕ
device_group_size none group_name = 1
device_group_size (some mac_map) group_name =
    let count =
      length (select (λ entry. elim entry.1 [ none ↦ false | some g ↦ g == group_name ]) mac_map) in
    if count == 0 then 1 else count

-- `device_group_for`; `sanitized` is the mac without its colons.
unfoldable pub device_group_for :
    Option String → Option (Dict String (Option String)) → String → String → String
device_group_for (some vlan_group) specs mac sanitized = vlan_group
device_group_for none none mac sanitized = sanitized
device_group_for none (some mac_map) mac sanitized = elim (get mac mac_map) [
  | none ↦ sanitized
  | some group ↦ (elim group [ none ↦ sanitized | some name ↦ name ])
]
