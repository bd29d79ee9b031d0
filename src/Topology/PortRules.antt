-- ===== src/Topology/PortRules.antt =====
-- daq/topology.py: the access rules of the ports of the secondary switch.
use daq.Base.{
  ℕ, String, Bool, true, false, not, ◌&&◌, Option, none, some, List, [], ◌∷◌, ◌++◌, map,
  if◌then◌else◌, is_some, ◌==◌, nat_eq, string_eq, pair_eq,
}
use daq.Base.Dict.{values, get}
use daq.Base.Action.{
  assertion, missing, Result, ok, err, Action, pure, raise, skip, assert, when, maybe, ◌>>=◌, ◌>>◌,
}
use daq.Topology.{Topology, Target}
use daq.Topology.Rules.{broadcast_mac}
use daq.Topology.MainRules.{get_port_vlan, dot1x_eth_type}
use daq.Topology.Templates.{
  PortRule, Specs, no_match, resolve_template_field, resolve_targets, get_acl_template,
  get_device_type, then_rules,
}

abbrev is_dhcp : Option ℕ → Bool
is_dhcp none = false
is_dhcp (some udp_src) = udp_src == 68

abbrev uplink_ports : ℕ → Option (List ℕ) → List ℕ
uplink_ports sec_port none = sec_port ∷ []
uplink_ports sec_port (some ports) = ports ++ sec_port ∷ []

-- `_augment_sec_port_acl`
unfoldable pub augment_sec_port_acl :
    ℕ → PortRule → Option (List ℕ) → Option String → Result PortRule
augment_sec_port_acl sec_port acl ports dl_dst =
    if is_some acl.output then err assertion else elim acl.allow [
      | none ↦ err missing
      | some false ↦ ok acl
      | some true ↦ ok (record acl {
        output = some (uplink_ports sec_port ports, none);
        dl_dst = if is_some dl_dst then dl_dst else acl.dl_dst;
        allow = if is_some ports && not (is_dhcp acl.udp_src) then none else some true;
      })
    ]

-- A rule that is appended to the rules of a port.
unfoldable pub append_rule : Result PortRule → Action (List PortRule) (Unit {0})
append_rule (err x) rules = (err x, rules)
append_rule (ok rule) rules = (ok tt, rules ++ rule ∷ [])

unfoldable pub append_target_rules : ℕ → PortRule → List Target → Action (List PortRule) (Unit {0})
unfolding augment_sec_port_acl append_rule ◌>>=◌
append_target_rules sec_port acl [] = skip
append_target_rules sec_port acl (target ∷ targets) =
    append_rule (augment_sec_port_acl sec_port acl (some (target.port ∷ [])) (some target.mac))
    >> append_target_rules sec_port acl targets

-- `_append_augmented_rule`
unfoldable pub append_augmented_rule :
    ℕ → PortRule → Option (List Target) → Action (List PortRule) (Unit {0})
unfolding augment_sec_port_acl append_rule append_target_rules ◌>>=◌
append_augmented_rule sec_port acl none = append_rule (augment_sec_port_acl sec_port acl none none)
append_augmented_rule sec_port acl (some targets) =
    append_rule
      (augment_sec_port_acl sec_port acl (some (map (λ t. t.port) targets)) (some broadcast_mac))
    >> append_target_rules sec_port acl targets

unfoldable pub default_allow_rule : Bool → Bool → PortRule
default_allow_rule allow described = record no_match { allow = some allow; described = described }

module _ (sec_port : ℕ) (port_targets : List Target) where
  -- A rule of a template with the targets that it is for.
  unfoldable pub append_resolved :
      PortRule → Result (Option (List Target)) → Action (List PortRule) (Unit {0})
  unfolding append_augmented_rule
  append_resolved rule (err x) = raise x
  append_resolved rule (ok targets) = append_augmented_rule sec_port rule targets

  unfoldable pub append_template_rule :
      Specs → Option String → PortRule → Action (List PortRule) (Unit {0})
  unfolding resolve_template_field resolve_targets append_resolved
  append_template_rule specs target_mac acl =
      let (dl_src, _) = resolve_template_field target_mac acl.dl_src in
      let (nw_dst, target) = resolve_template_field none acl.nw_dst in
      let rule = record acl { dl_src = dl_src; nw_dst = nw_dst } in
      append_resolved rule (resolve_targets specs port_targets target target_mac rule)

  unfoldable pub append_template_rules :
      Specs → Option String → List PortRule → Action (List PortRule) (Unit {0})
  unfolding append_template_rule ◌>>=◌
  append_template_rules specs target_mac [] = skip
  append_template_rules specs target_mac (acl ∷ acls) =
      append_template_rule specs target_mac acl >> append_template_rules specs target_mac acls

  unfoldable pub append_loaded :
      Specs → Option String → Result (List PortRule) → Action (List PortRule) Bool
  unfolding append_template_rules ◌>>=◌
  append_loaded specs target_mac (err x) = raise x
  append_loaded specs target_mac (ok acls) =
      append_template_rules specs target_mac acls >> pure true

  -- `_append_acl_template` of a device type for the address of a device, if it is given one.
  unfoldable pub append_acl_template :
      Option Specs → String → Option String → Action (List PortRule) Bool
  unfolding get_acl_template append_loaded
  append_acl_template none device_type target_mac = pure false
  append_acl_template (some specs) device_type target_mac =
      append_loaded specs target_mac
        (then_rules (get_acl_template specs device_type) (λ t. t.from_rules))

  -- `_make_default_acl_rules`
  unfoldable pub append_default_acl_rules : Option Specs → Action (List PortRule) (Unit {0})
  unfolding append_acl_template append_augmented_rule default_allow_rule ◌>>=◌
  append_default_acl_rules specs = append_acl_template specs "raw" none >>= λ found.
      when (not found) (append_augmented_rule sec_port (default_allow_rule true false) none)

  unfoldable pub append_device_default_allow : Specs → String → Action (List PortRule) (Unit {0})
  unfolding append_augmented_rule default_allow_rule
  append_device_default_allow specs target_mac =
      maybe (get target_mac specs.mac_addrs) skip (λ spec.
        maybe spec.default_allow skip
          (λ allow. append_augmented_rule sec_port (default_allow_rule allow true) none))

  -- The rules of a port whose target has the address.
  unfoldable pub append_device_rules : Specs → String → Action (List PortRule) (Unit {0})
  unfolding get_device_type append_acl_template append_device_default_allow ◌>>=◌
  append_device_rules specs target_mac =
      append_acl_template (some specs) (get_device_type specs target_mac) (some target_mac)
      >> (append_acl_template (some specs) "baseline" none >>= λ found. assert found)
      >> append_device_default_allow specs target_mac

unfoldable pub dot1x_uplink_rule : ℕ → ℕ → PortRule
dot1x_uplink_rule sec_port vlan = record no_match {
  eth_type = some dot1x_eth_type;
  output = some (sec_port ∷ [], some vlan);
}

unfoldable pub append_port_rules : Option Specs → Topology → ℕ → Action (List PortRule) (Unit {0})
unfolding append_device_rules append_default_acl_rules
append_port_rules none t port = append_default_acl_rules t.sec_port (values t.port_targets) none
append_port_rules (some specs) t port =
    maybe (get port t.port_targets)
      (append_default_acl_rules t.sec_port (values t.port_targets) (some specs))
      (λ target. append_device_rules t.sec_port (values t.port_targets) specs target.mac)

-- `_generate_port_acl`: the rules that it writes to the file of the port.
unfoldable pub generate_port_acl : Option Specs → Topology → ℕ → Result (Unit {0}) × List PortRule
unfolding get_port_vlan dot1x_uplink_rule append_port_rules
generate_port_acl specs t port =
    append_port_rules specs t port
      (dot1x_uplink_rule t.sec_port (get_port_vlan (some port) t.port_targets) ∷ [])
