-- ===== src/Topology/Templates.antt =====
-- daq/topology.py: the templates of access rules, and the targets that a rule of a template allows.
use daq.Base.{
  ℕ, String, Bool, true, false, not, ◌&&◌, ◌||◌, Option, none, some, List, [], ◌∷◌, ◌++◌,
  if◌then◌else◌, ◌==◌, nat_eq, string_eq, select, any, pair_eq,
}
use daq.Base.Dict.{Dict, get, has}
use daq.Base.Action.{missing, raised, Result, ok, err}
use daq.Topology.{Target}

-- An address field of a template by its prefix, `@mac:`, `@dns:` or `@ctrl:`, or without one; a resolved
-- `@mac:` field may be None.
pub data Field : Type 0 where
  mac_prefix dns_prefix ctl_prefix : String → Field
  literal : Option String → Field

-- `rule['rule']` of a template and of a port, with the ports and the vlan of `actions['output']`;
-- `described` says that the rule has a description.
pub record PortRule : Type 0 where
  pub output : Option (List ℕ × Option ℕ)
  pub allow : Option Bool
  pub dl_src : Option Field
  pub dl_dst : Option String
  pub nw_src : Option Field
  pub nw_dst : Option Field
  pub udp_src : Option ℕ
  pub udp_dst : Option ℕ
  pub tcp_src : Option ℕ
  pub tcp_dst : Option ℕ
  pub eth_type : Option ℕ
  pub described : Bool

abbrev pub no_match : PortRule
no_match = record {
  output = none;
  allow = none;
  dl_src = none;
  dl_dst = none;
  nw_src = none;
  nw_dst = none;
  udp_src = none;
  udp_dst = none;
  tcp_src = none;
  tcp_dst = none;
  eth_type = none;
  described = false;
}

-- The rules under the keys `@from:` and `@to:` of the template of a type.
pub record Template : Type 0 where
  pub from_rules : Option (List PortRule)
  pub to_rules : Option (List PortRule)

-- An entry of `macAddrs`; `controllers` gives for a controller its `controlees`, and for a name in those
-- the addresses.
pub record Spec : Type 0 where
  pub device_type : Option String
  pub controllers : Option (Dict String (Dict String (List String)))
  pub default_allow : Option Bool

-- `_device_specs`, and the template file of a type. A type without a file makes the load raise.
pub record Specs : Type 0 where
  pub mac_addrs : Dict String Spec
  pub templates : Dict String Template

unfoldable pub get_device_type : Specs → String → String
get_device_type specs target_mac = elim (get target_mac specs.mac_addrs) [
  | none ↦ "default"
  | some spec ↦ (elim spec.device_type [ none ↦ "default" | some device_type ↦ device_type ])
]

-- `_resolve_template_field`: the field after it, and the placeholder that it had.
unfoldable pub resolve_template_field : Option String → Option Field → Option Field × Option Field
resolve_template_field target_mac none = (none, none)
resolve_template_field target_mac (some (mac_prefix p)) =
    (some (literal target_mac), some (mac_prefix p))
resolve_template_field target_mac (some (dns_prefix p)) = (none, some (dns_prefix p))
resolve_template_field target_mac (some (ctl_prefix p)) = (none, some (ctl_prefix p))
resolve_template_field target_mac (some (literal p)) = (some (literal p), some (literal p))

-- Two fields that are both there, and not 0, must be the same.
unfoldable pub conditional_match : Option ℕ → Option ℕ → Bool
conditional_match (some src) (some dst) = src == 0 || (dst == 0 || src == dst)
conditional_match _ _ = true

abbrev is_controlled : String → Option Field → Bool
is_controlled controller (some (ctl_prefix p)) = p == controller
is_controlled controller _ = false

unfoldable pub rule_match : PortRule → PortRule → String → Bool
unfolding conditional_match
rule_match src_rule dst_rule controller =
    is_controlled controller dst_rule.nw_src
    && (conditional_match src_rule.udp_src dst_rule.udp_src
        && (conditional_match src_rule.udp_dst dst_rule.udp_dst
            && (conditional_match src_rule.tcp_src dst_rule.tcp_src
                && conditional_match src_rule.tcp_dst dst_rule.tcp_dst)))

-- `_load_file` raises for a file that is not there.
unfoldable pub get_acl_template : Specs → String → Result Template
get_acl_template specs device_type = elim (get device_type specs.templates) [
  | none ↦ err raised
  | some template ↦ ok template
]

abbrev pub then_rules :
    Result Template → (Template → Option (List PortRule)) → Result (List PortRule)
then_rules (err x) key = err x
then_rules (ok template) key = elim (key template) [ none ↦ err missing | some rules ↦ ok rules ]

unfoldable pub allow_target_mac : Specs → String → PortRule → String → Result Bool
unfolding get_device_type get_acl_template rule_match
allow_target_mac specs target_mac src_rule controller =
    elim (get_acl_template specs (get_device_type specs target_mac)) [
      | err x ↦ err x
      | ok template ↦
          if not (has target_mac specs.mac_addrs) then ok false else elim template.to_rules [
            | none ↦ err missing
            | some rules ↦ ok (any (λ rule. rule_match src_rule rule controller) rules)
          ]
    ]

-- The loop over the addresses: the targets on a port with one of them, if it is allowed.
unfoldable pub allowed_targets :
    Specs → PortRule → String → List Target → List String → Result (List Target)
unfolding allow_target_mac
allowed_targets specs src_rule controller port_targets [] = ok []
allowed_targets specs src_rule controller port_targets (mac ∷ macs) =
    let rest = allowed_targets specs src_rule controller port_targets macs in
    elim (allow_target_mac specs mac src_rule controller) [
      | err x ↦ err x
      | ok allowed ↦ (elim rest [
        | err x ↦ err x
        | ok targets ↦
            ok (if allowed then select (λ t. t.mac == mac) port_targets ++ targets else targets)
      ])
    ]

-- The lookups of `_resolve_targets` for the address of a device: none where it returns None.
abbrev controlled_macs : Spec → String → Option (List String)
controlled_macs bridge controller = elim bridge.controllers [
  | none ↦ none
  | some controllers ↦ (elim (get controller controllers) [
    | none ↦ none
    | some middle ↦ get controller middle
  ])
]

abbrev some_result : Result (List Target) → Result (Option (List Target))
some_result (err x) = err x
some_result (ok targets) = ok (some targets)

abbrev bridge_of : Specs → Option String → Option Spec
bridge_of specs none = none
bridge_of specs (some mac) = get mac specs.mac_addrs

unfoldable pub resolve_targets :
    Specs → List Target → Option Field → Option String → PortRule → Result (Option (List Target))
unfolding allowed_targets
resolve_targets specs port_targets (some (ctl_prefix controller)) src_mac src_rule =
    elim (bridge_of specs src_mac) [
      | none ↦ err missing
      | some bridge ↦ (elim (controlled_macs bridge controller) [
        | none ↦ ok none
        | some macs ↦ some_result (allowed_targets specs src_rule controller port_targets macs)
      ])
    ]
resolve_targets specs port_targets _ src_mac src_rule = ok none
