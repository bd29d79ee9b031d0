-- ===== src/Topology/MainRules.antt =====
-- daq/topology.py: the rules of the primary switch and of the trunk of the secondary switch.
use daq.Base.{
  ℕ, String, Bool, true, false, not, Option, none, some, List, [], ◌∷◌, if◌then◌else◌, ◌==◌, nat_eq,
  string_eq, nonempty, range, pair_eq,
}
use daq.Base.Dict.{Dict, values, get, insert}
use daq.Base.Action.{Result, Action, skip, modify, maybe, ◌>>=◌, ◌>>◌}
use daq.Topology.{Topology, Target, port_set_vlan}
use daq.Topology.Rules.{
  Vid, vid, Keywords, no_keywords, Rule, Acls, add_incoming, add_secondary, add_portset,
  generate_switch_local_acls, generate_port_target_acls, generate_mirror_acls,
}

-- What the rules need of a device in a gateway set; `test_ports` are those of its gateway, if it has one.
pub record Member : Type 0 where
  pub mac : String
  pub vlan : Option ℕ
  pub assigned : Option ℕ
  pub port_no : Option ℕ
  pub test_ports : Option (List ℕ)

-- `get_port_vlan`; None is no key of the targets.
unfoldable pub get_port_vlan : Option ℕ → Dict ℕ Target → ℕ
unfolding port_set_vlan
get_port_vlan none targets = port_set_vlan none
get_port_vlan (some port_no) targets =
    port_set_vlan (elim (get port_no targets) [ none ↦ none | some target ↦ some target.port_set ])

abbrev pub dot1x_eth_type : ℕ
dot1x_eth_type = 34958

abbrev pub in_port : ℕ
in_port = 4294967288

-- The truth value of a number that may be None.
abbrev pub is_set : Option ℕ → Bool
is_set none = false
is_set (some n) = not (n == 0)

unfoldable pub dot1x_rule : List ℕ → Option ℕ → Option ℕ → Option Keywords
dot1x_rule ports vlan_vid out_vid =
    if is_set vlan_vid
    then some (record no_keywords {
      eth_type = some dot1x_eth_type;
      ports = some ports;
      vlan_vid = elim vlan_vid [ none ↦ none | some v ↦ some (vid v) ];
    })
    else if is_set out_vid
    then some (record no_keywords {
      eth_type = some dot1x_eth_type;
      ports = some ports;
      out_vid = out_vid;
    })
    else none

unfoldable pub dot1x_incoming : List ℕ → ℕ → Acls → Acls
unfolding dot1x_rule add_incoming
dot1x_incoming ports vlan a = elim (dot1x_rule ports (some vlan) none) [
  | none ↦ a
  | some k ↦ add_incoming k a
]

unfoldable pub dot1x_secondary : Option ℕ → ℕ → Acls → Acls
unfolding dot1x_rule add_secondary
dot1x_secondary none vlan a = a
dot1x_secondary (some port) vlan a =
    if port == 0
    then a
    else elim (dot1x_rule (port ∷ []) (some vlan) none) [ none ↦ a | some k ↦ add_secondary k a ]

-- `_add_dot1x_incoming_rule`, over the devices of all the sets.
unfoldable pub add_dot1x_incoming_rule : Dict ℕ Target → List Member → Acls → Acls
unfolding get_port_vlan dot1x_incoming dot1x_secondary
add_dot1x_incoming_rule targets [] a = a
add_dot1x_incoming_rule targets (device ∷ devices) a =
    add_dot1x_incoming_rule targets devices (elim device.test_ports [
      | none ↦ a
      | some test_ports ↦
          (let vlan = get_port_vlan device.port_no targets in
            dot1x_secondary device.port_no vlan
              (if nonempty test_ports then dot1x_incoming test_ports vlan a else a))
    ])

abbrev optional_vid : Option ℕ → Option Vid
optional_vid none = none
optional_vid (some v) = some (vid v)

-- The requests of a device go to its egress vlan, and the replies back.
unfoldable pub reflector_rules : Option ℕ → Member → Acls → Acls
unfolding add_incoming
reflector_rules default_vlan device a =
    let egress_vlan = if is_set device.assigned then device.assigned else default_vlan in
    add_incoming
      (record no_keywords {
        dl_type = some "0x800";
        dl_dst = some device.mac;
        nw_proto = some 17;
        udp_src = some 67;
        udp_dst = some 68;
        vlan_vid = optional_vid egress_vlan;
        swap_vid = device.vlan;
        port = some in_port;
        allow = some true;
      })
      (add_incoming
        (record no_keywords {
          dl_type = some "0x800";
          nw_proto = some 17;
          udp_src = some 68;
          udp_dst = some 67;
          vlan_vid = optional_vid device.vlan;
          swap_vid = egress_vlan;
          port = some in_port;
        })
        a)

unfoldable pub reflect_all : Option ℕ → List Member → Acls → Acls
unfolding reflector_rules
reflect_all default_vlan [] a = a
reflect_all default_vlan (device ∷ devices) a =
    reflect_all default_vlan devices (reflector_rules default_vlan device a)

-- `_add_dhcp_reflectors`; the flag says that the model of the switch is EXT_STACK.
unfoldable pub add_dhcp_reflectors : Bool → Option ℕ → List Member → Acls → Acls
unfolding reflect_all add_incoming
add_dhcp_reflectors ext_faucet default_vlan devices a =
    if not ext_faucet
    then a
    else add_incoming
        (record no_keywords {
          dl_type = some "0x800";
          allow = some false;
          nw_proto = some 17;
          udp_src = some 67;
          udp_dst = some 68;
        })
        (add_incoming
          (record no_keywords {
            dl_type = some "0x800";
            allow = some true;
            nw_proto = some 17;
            udp_src = some 68;
            udp_dst = some 67;
          })
          (reflect_all default_vlan devices a))

abbrev allow_all : Keywords
allow_all = record no_keywords { allow = some true }

abbrev empty_portsets : List ℕ → Dict ℕ (List Rule) → Dict ℕ (List Rule)
empty_portsets [] portsets = portsets
empty_portsets (port_set ∷ port_sets) portsets =
    empty_portsets port_sets (insert port_set [] portsets)

-- The last loop over the port sets.
unfoldable pub finish_portsets : List ℕ → Action Acls (Unit {0})
unfolding dot1x_rule port_set_vlan add_portset ◌>>=◌
finish_portsets [] = skip
finish_portsets (port_set ∷ port_sets) =
    maybe (dot1x_rule (1 ∷ []) none (some (port_set_vlan (some port_set)))) skip
      (add_portset port_set)
    >> add_portset port_set allow_all
    >> finish_portsets port_sets

-- `_generate_main_acls`, with the settings `ext_ofip`, `_ext_faucet` and `_egress_vlan` and the devices
-- of all the sets.
unfoldable pub generate_main_acls :
    Option String → Bool → Option ℕ → List Member → Topology → Result (Unit {0}) × Acls
unfolding add_dot1x_incoming_rule generate_switch_local_acls generate_port_target_acls
    generate_mirror_acls add_dhcp_reflectors add_incoming add_secondary finish_portsets ◌>>=◌
generate_main_acls ext_ofip ext_faucet egress_vlan devices t =
    let port_sets = range 1 t.sec_port in
    (modify (add_dot1x_incoming_rule t.port_targets devices)
        >> modify (λ a. record a { portsets = empty_portsets port_sets [] })
        >> generate_switch_local_acls ext_ofip port_sets
        >> (generate_port_target_acls (values t.port_targets) [] >>= λ mirrors.
            generate_mirror_acls mirrors)
        >> modify (add_dhcp_reflectors ext_faucet egress_vlan devices)
        >> modify (add_incoming allow_all)
        >> modify (add_secondary allow_all)
        >> finish_portsets port_sets)
      (record { incoming = []; secondary = []; local = []; portsets = [] })
