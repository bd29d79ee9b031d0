-- ===== src/Topology/Tests.antt =====
-- daq/topology.py: samples.
use daq.Base.{
  ℕ, ◌≡◌, refl, ◌≢◌, true, false, none, some, [], ◌∷◌, nat_eq, string_eq, contains, pair_eq,
}
use daq.Gateway.{
  Gateway, fresh_gateway, container_gateway, get_possible_test_ports, switch_port, host_port,
  dummy_offset,
}
use daq.Topology.Rules.{Mirrors}
use daq.Topology.Mirrored.{Frame}
use daq.Topology.Templates.{Specs, no_match}
use daq.Topology.PortRules.{generate_port_acl}
use daq.Topology.Uplink.{AreUplinked, generate_port_acl-AreUplinked}
use daq.Topology.Interfaces.{Settings}
use daq.Topology.{Topology, Target, get_gw_ports}
use daq.Topology.Sets.{get_gw_ports_apart}

abbrev gateway : Gateway
gateway = fresh_gateway container_gateway "gw02" 2 false

abbrev target : Target
target = record { port = 3; group = "lights"; fake = true; port_set = 2; mac = "9a:01" }

abbrev topology : Topology
topology = record {
  sec_port = 9;
  port_targets = (3, target) ∷ [];
  set_devices = (2, 0 ∷ []) ∷ [];
  pri_vlans = [];
  sec_vlans = (3, some 1002) ∷ [];
}

get_gw_ports_example :
    (gateway.port_set ≢ 3
      → contains (get_gw_ports gateway.port_set) 23 ≡ true
      → contains (get_gw_ports 3) 23 ≡ false)
    × (contains (get_possible_test_ports gateway) 23 ≡ true
        → contains (get_gw_ports gateway.port_set) 23 ≡ true)
    × (gateway.is_native ≡ false
        → (contains (get_gw_ports gateway.port_set) (host_port gateway) ≡ true)
          × (contains (get_gw_ports gateway.port_set) (switch_port gateway dummy_offset) ≡ true))
    × (gateway.is_native ≡ true
        → (host_port gateway ≡ 1)
          × (◌≢◌ {A = ℕ} 3 0 → contains (get_gw_ports 3) (host_port gateway) ≡ false))
get_gw_ports_example = get_gw_ports_apart gateway 3 23

abbrev frame : Frame
frame = record {
  dl_src = "9a:01";
  dl_dst = "9a:02";
  vlan = none;
  dl_type = "0x0800";
  eth_type = 2048;
  nw_proto = none;
  udp_src = none;
  udp_dst = none;
  ipv4_dst = none;
}

abbrev mirrors : Mirrors
mirrors = ("9a:01", 1003) ∷ ("9a:02", 1004) ∷ []

abbrev specs : Specs
specs = record {
  mac_addrs =
      ("9a:01", record { device_type = none; controllers = none; default_allow = some true }) ∷ [];
  templates =
      (
        "default",
        record { from_rules = some (record no_match { allow = some true } ∷ []); to_rules = none },
      )
      ∷ ("baseline", record { from_rules = some []; to_rules = none })
      ∷ [];
}

generate_port_acl_example : AreUplinked 9 (generate_port_acl (some specs) topology 3).1
generate_port_acl_example = generate_port_acl-AreUplinked (some specs) topology 3

abbrev settings : Settings
settings = record { vlan_range = none; native_vlan = none }

member_23 : contains (get_gw_ports 2) 23 ≡ true
unfolding get_gw_ports
member_23 = refl
