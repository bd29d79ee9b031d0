-- ===== src/Topology/Rules.antt =====
-- daq/topology.py: access rules, and those of the primary switch that mirror traffic.
use daq.Base.{
  ℕ, String, Bool, true, ◌||◌, Option, none, some, List, [], ◌∷◌, ◌++◌, map, if◌then◌else◌, is_some,
  ◌==◌, nat_eq, string_eq, pair_eq,
}
use daq.Base.Dict.{Dict, get, insert}
use daq.Base.Action.{missing, ok, err, Action, pure, skip, modify, maybe, ◌>>=◌, ◌>>◌}
use daq.Topology.{Target, mirror_port, mirror_port_base, get_gw_ports}

-- `vlan_vid` of a match: `_NO_VLAN` or the number of a vlan.
pub data Vid : Type 0 where
  no_vlan : Vid
  vid : ℕ → Vid

-- The keywords that the code gives to `_make_acl_rule`; an absent one is the same as None, but for
-- `in_vlan`, which no call gives.
pub record Keywords : Type 0 where
  pub port : Option ℕ
  pub ports : Option (List ℕ)
  pub out_vid : Option ℕ
  pub swap_vid : Option ℕ
  pub allow : Option Bool
  pub dl_type : Option String
  pub dl_src : Option String
  pub dl_dst : Option String
  pub nw_proto : Option ℕ
  pub udp_src : Option ℕ
  pub udp_dst : Option ℕ
  pub vlan_vid : Option Vid
  pub ipv4_dst : Option String
  pub eth_type : Option ℕ

abbrev pub no_keywords : Keywords
no_keywords = record {
  port = none;
  ports = none;
  out_vid = none;
  swap_vid = none;
  allow = none;
  dl_type = none;
  dl_src = none;
  dl_dst = none;
  nw_proto = none;
  udp_src = none;
  udp_dst = none;
  vlan_vid = none;
  ipv4_dst = none;
  eth_type = none;
}

-- `actions['output']`
pub record Output : Type 0 where
  pub port : Option ℕ
  pub ports : Option (List ℕ)
  pub vlan_vid : Option ℕ
  pub swap_vid : Option ℕ

-- `rule['rule']`: what is matched, and the actions.
pub record Rule : Type 0 where
  pub output : Option Output
  pub allow : Option Bool
  pub dl_type : Option String
  pub dl_src : Option String
  pub dl_dst : Option String
  pub nw_proto : Option ℕ
  pub udp_src : Option ℕ
  pub udp_dst : Option ℕ
  pub vlan_vid : Option Vid
  pub ipv4_dst : Option String
  pub eth_type : Option ℕ

unfoldable pub make_output : Keywords → Option Output
make_output k =
    if is_some k.port || is_some k.ports || is_some k.out_vid || is_some k.swap_vid
    then some
        (record { port = k.port; ports = k.ports; vlan_vid = k.out_vid; swap_vid = k.swap_vid })
    else none

unfoldable pub make_acl_rule : Keywords → Rule
unfolding make_output
make_acl_rule k = record {
  output = make_output k;
  allow = k.allow;
  dl_type = k.dl_type;
  dl_src = k.dl_src;
  dl_dst = k.dl_dst;
  nw_proto = k.nw_proto;
  udp_src = k.udp_src;
  udp_dst = k.udp_dst;
  vlan_vid = k.vlan_vid;
  ipv4_dst = k.ipv4_dst;
  eth_type = k.eth_type;
}

unfoldable pub add_acl_rule : List Rule → Keywords → List Rule
unfolding make_acl_rule
add_acl_rule acl k = acl ++ make_acl_rule k ∷ []

abbrev pub broadcast_mac : String
broadcast_mac = "ff:ff:ff:ff:ff:ff"

-- The addresses and mirror ports of the targets of a port set.
abbrev pub Mirrors : Type 0
Mirrors = List (String × ℕ)

abbrev pub mirror_ports : Mirrors → List ℕ
mirror_ports mirrors = map (λ m. m.1) mirrors

-- The rule for what a target sends to the given address, or to any.
unfoldable pub mirror_rule : String → Option String → List ℕ → Rule
unfolding make_acl_rule
mirror_rule src dst ports = make_acl_rule (record no_keywords {
  dl_src = some src;
  dl_dst = dst;
  vlan_vid = some no_vlan;
  ports = some ports;
})

-- The inner loop of `_generate_mirror_acls`, over the other targets.
unfoldable pub pair_rules : String → ℕ → Mirrors → List Rule
unfolding mirror_rule
pair_rules src src_mirror [] = []
pair_rules src src_mirror ((dst, dst_mirror) ∷ mirrors) =
    let rest = pair_rules src src_mirror mirrors in
    if dst == src then rest else mirror_rule src (some dst) (src_mirror ∷ dst_mirror ∷ []) ∷ rest

-- Its body for one target.
unfoldable pub source_rules : Mirrors → String → ℕ → List Rule
unfolding mirror_rule pair_rules
source_rules mirrors src src_mirror =
    mirror_rule src (some broadcast_mac) (mirror_ports mirrors)
    ∷ (pair_rules src src_mirror mirrors ++ mirror_rule src none (src_mirror ∷ []) ∷ [])

-- The loop over the targets, with all of them and those that are left.
unfoldable pub mirror_rules : Mirrors → Mirrors → List Rule
unfolding source_rules
mirror_rules mirrors [] = []
mirror_rules mirrors ((src, src_mirror) ∷ rest) =
    source_rules mirrors src src_mirror ++ mirror_rules mirrors rest

-- The lists that `_generate_main_acls` makes.
pub record Acls : Type 0 where
  pub incoming : List Rule
  pub secondary : List Rule
  pub local : List Rule
  pub portsets : Dict ℕ (List Rule)

unfoldable pub add_incoming : Keywords → Acls → Acls
unfolding add_acl_rule
add_incoming k a = record a { incoming = add_acl_rule a.incoming k }

unfoldable pub add_secondary : Keywords → Acls → Acls
unfolding add_acl_rule
add_secondary k a = record a { secondary = add_acl_rule a.secondary k }

-- A port set that is not there raises a KeyError.
unfoldable pub add_portset : ℕ → Keywords → Action Acls (Unit {0})
unfolding add_acl_rule
add_portset port_set k a = elim (get port_set a.portsets) [
  | none ↦ (err missing, a)
  | some acl ↦ (ok tt, record a { portsets = insert port_set (add_acl_rule acl k) a.portsets })
]

-- `_generate_switch_local_acls`
unfoldable pub switch_local_loop : String → List ℕ → Action Acls (List ℕ)
unfolding add_portset get_gw_ports ◌>>=◌
switch_local_loop ofip [] = pure []
switch_local_loop ofip (port_set ∷ port_sets) =
    let rest = switch_local_loop ofip port_sets in
    add_portset port_set (record no_keywords {
      ports = some (mirror_port_base ∷ []);
      ipv4_dst = some ofip;
      dl_type = some "0x0800";
    })
    >> (rest >>= λ ports. pure (get_gw_ports port_set ++ ports))

unfoldable pub generate_switch_local_acls : Option String → List ℕ → Action Acls (Unit {0})
unfolding switch_local_loop add_acl_rule ◌>>=◌
generate_switch_local_acls ext_ofip port_sets =
    maybe ext_ofip (pure []) (λ ofip. switch_local_loop ofip port_sets) >>= λ all_ports.
    modify (λ a. record a {
      local = add_acl_rule a.local (record no_keywords { ports = some all_ports });
    })

-- `_generate_port_target_acls`
unfoldable pub add_mirror : ℕ → String × ℕ → Dict ℕ Mirrors → Dict ℕ Mirrors
add_mirror port_set mirror mirrors =
    insert port_set ((elim (get port_set mirrors) [ none ↦ [] | some ms ↦ ms ]) ++ mirror ∷ [])
      mirrors

unfoldable pub generate_port_target_acls :
    List Target → Dict ℕ Mirrors → Action Acls (Dict ℕ Mirrors)
unfolding add_mirror mirror_port add_portset ◌>>=◌
generate_port_target_acls [] mirrors = pure mirrors
generate_port_target_acls (target ∷ targets) mirrors =
    let mirror = mirror_port target.port in
    add_portset target.port_set (record no_keywords {
      dl_dst = some target.mac;
      ports = some (mirror ∷ []);
      allow = some true;
    })
    >> generate_port_target_acls targets (add_mirror target.port_set (target.mac, mirror) mirrors)

-- `_generate_mirror_acls`
unfoldable pub generate_mirror_acls : Dict ℕ Mirrors → Action Acls (Unit {0})
unfolding mirror_rules add_portset ◌>>=◌
generate_mirror_acls [] = skip
generate_mirror_acls ((port_set, mirrors) ∷ port_set_mirrors) =
    modify (λ a. record a { incoming = a.incoming ++ mirror_rules mirrors mirrors })
    >> add_portset port_set (record no_keywords {
      dl_dst = some broadcast_mac;
      ports = some (mirror_ports mirrors ++ mirror_port_base ∷ []);
      allow = some true;
    })
    >> generate_mirror_acls port_set_mirrors
