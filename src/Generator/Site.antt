-- ===== src/Generator/Site.antt =====
-- daq/generator.py: what the generator reads from the site and the setup, and the parts that it makes of it.
use daq.Config.Tree.{
  Text, Value, Fields, text, number, flag, sequence, mapping, item, done, empty, field, assign,
  codes, text_eq,
}
use daq.Config.Flat.{on_option}
use daq.Base.{
  ℕ, String, Bool, true, Option, none, some, List, [], ◌∷◌, ◌++◌, if◌then◌else◌, Eq, ◌==◌, nat_eq,
  string_eq, pair_eq,
}
use daq.Base.Dict.{Dict, insert}

-- `site['tier1']['domains'][domain]`
pub record Domain : Type 0 where
  pub dp_id : Value
  pub location : Option Text
  pub name : Option Value

-- `site['tier2']['tier1_ports'][port]`
pub record Tier2 : Type 0 where
  pub domain : Text
  pub dp_id : Value
  pub location : Option Text
  pub stack_port : ℕ
  pub cross_port : ℕ
  pub hardware : Option Value

-- `_site`. `tier1_hardware` and `tier2_hardware` are the hardware of the defaults of a tier.
pub record Site : Type 0 where
  pub site_name : Text
  pub vlan_id : ℕ
  pub upstream_lacp : Option Value
  pub uplink_ports : List ℕ
  pub uplink_native : Bool
  pub tier1_hardware : Option Value
  pub domains : Dict Text Domain
  pub tier1_ports : Dict ℕ Tier2
  pub tier2_hardware : Option Value
  pub device_ports : Text
  pub uniform_acls : List Fields

-- `_setup`. `faucet_dp_mac` is the format of an address, applied to a domain and a tier.
pub record Setup : Type 0 where
  pub control : Text
  pub tier1 : Text
  pub tier2 : Text
  pub combinatorial_port_flood : Value
  pub faucet_dp_mac : Text → ℕ → Value
  pub lacp_timeout : Value
  pub switch_lldp_beacon : Value
  pub port_lldp_beacon : Value
  pub receive_lldp : Value
  pub default_hardware : Value
  pub egress_description : Value
  pub device_description : Value
  pub loop_protect_external : Bool
  pub uplink_iface : Option Fields
  pub vlan_name : Text
  pub vlan_description : Value
  pub pre_acls : List Fields
  pub post_acls : List Fields
  pub db_type : Text
  pub interval : Value
  pub db_types : Fields
  pub faucet_yaml : Value

-- One datapath of `dps`. Only the first tier has `stack`, only the second `interface_ranges`.
pub record Dp : Type 0 where
  pub dp_id : Value
  pub combinatorial_port_flood : Value
  pub faucet_dp_mac : Value
  pub hardware : Value
  pub lacp_timeout : Value
  pub lldp_beacon : Value
  pub interface_ranges : Option (Text × Fields)
  pub interfaces : Dict ℕ Fields
  pub stack : Option Fields

-- `conf.get('location', '')`
abbrev pub or_blank : Option Text → Text
or_blank none = []
or_blank (some location) = location

-- `_maybe_add`
unfoldable pub maybe_add : String → Option Value → Fields → Fields
unfolding assign
maybe_add key none fields = fields
maybe_add key (some value) fields = assign (codes key) value fields

-- `var.update(target)` of a dict with text keys.
unfoldable pub update : Fields → Fields → Fields
unfolding assign
update fields empty = fields
update fields (field key value target) = update (assign key value fields) target

-- `_maybe_update`
unfoldable pub maybe_update : Option Fields → Fields → Fields
unfolding update
maybe_update none fields = fields
maybe_update (some target) fields = update fields target

-- `dict.update`
unfoldable pub update_all {ℓ κ} :
    {K : Type ℓ} {V : Type κ} ⦃e : Eq K⦄ → Dict K V → Dict K V → Dict K V
update_all entries [] = entries
update_all entries ((k, v) ∷ more) = update_all (insert k v entries) more

abbrev pub uniform_acl_name : Value
uniform_acl_name = text (codes "uniform_acl")

abbrev pub one_vlan : Site → Value
one_vlan site = sequence (item (number site.vlan_id) done)

module _ (setup : Setup) (site : Site) where
  -- `_get_ctl_name`
  unfoldable pub get_ctl_name : Option Text → Text → Text
  get_ctl_name location domain = site.site_name ++ (setup.control ++ (or_blank location ++ domain))

  -- `_get_t1_dp_name`, of a domain that the site has.
  unfoldable pub get_t1_dp_name : Text → Domain → Text
  get_t1_dp_name domain conf = site.site_name ++ (setup.tier1 ++ (or_blank conf.location ++ domain))

  -- `_get_t2_dp_name`
  unfoldable pub get_t2_dp_name : Tier2 → Text
  get_t2_dp_name conf = site.site_name ++ (setup.tier2 ++ (or_blank conf.location ++ conf.domain))

  -- `_make_uplink_interface`
  unfoldable pub make_uplink_interface : Domain → Fields
  unfolding maybe_add maybe_update assign
  make_uplink_interface conf =
      let described = field (codes "description") setup.egress_description empty in
      let protected =
        if setup.loop_protect_external
        then assign (codes "loop_protect_external") (flag true) described
        else described in
      let tagged =
        if site.uplink_native
        then assign (codes "native_vlan") (number site.vlan_id) protected
        else assign (codes "tagged_vlans") (one_vlan site) protected in
      maybe_add "name" conf.name
        (maybe_add "lacp" site.upstream_lacp (maybe_update setup.uplink_iface tagged))

  -- `_make_device_interface`
  unfoldable pub make_device_interface : Fields
  make_device_interface = field (codes "description") setup.device_description (
      field (codes "acl_in") uniform_acl_name
        (field (codes "native_vlan") (number site.vlan_id) empty))

  -- The interface at one end of a link: the datapath and the port at the other end.
  unfoldable pub make_stack_interface : Text → ℕ → Fields
  make_stack_interface dp port =
      let link = field (codes "dp") (text dp) (field (codes "port") (number port) empty) in
      field (codes "lldp_beacon") setup.port_lldp_beacon (
        field (codes "receive_lldp") setup.receive_lldp
          (field (codes "stack") (mapping link) empty))

  -- `_make_t1_stack_interface`
  unfoldable pub make_t1_stack_interface : Tier2 → Fields
  unfolding make_stack_interface get_t2_dp_name
  make_t1_stack_interface spec = make_stack_interface (get_t2_dp_name spec) spec.stack_port

  -- `_make_t2_cross_interface`
  unfoldable pub make_t2_cross_interface : Fields
  make_t2_cross_interface =
      field (codes "loop_protect_external") (flag setup.loop_protect_external)
        (field (codes "tagged_vlans") (one_vlan site) empty)

  -- The loop of `_make_t1_stack_interfaces`.
  unfoldable pub add_stack_interfaces : Text → Dict ℕ Tier2 → Dict ℕ Fields → Dict ℕ Fields
  unfolding make_t1_stack_interface make_t2_cross_interface
  add_stack_interfaces domain [] interfaces = interfaces
  add_stack_interfaces domain ((port, spec) ∷ ports) interfaces =
      let interface =
        if spec.domain == domain then make_t1_stack_interface spec else make_t2_cross_interface in
      add_stack_interfaces domain ports (insert port interface interfaces)

  -- `_make_t1_stack_interfaces`
  unfoldable pub make_t1_stack_interfaces : Text → Dict ℕ Fields
  unfolding add_stack_interfaces
  make_t1_stack_interfaces domain = add_stack_interfaces domain site.tier1_ports []

  -- The loop of `_make_t1_dp_interfaces`.
  unfoldable pub add_uplinks : Domain → List ℕ → Dict ℕ Fields → Dict ℕ Fields
  unfolding make_uplink_interface
  add_uplinks conf [] interfaces = interfaces
  add_uplinks conf (port ∷ ports) interfaces =
      add_uplinks conf ports (insert port (make_uplink_interface conf) interfaces)

  -- `_make_t1_dp_interfaces`
  unfoldable pub make_t1_dp_interfaces : Text → Domain → Dict ℕ Fields
  unfolding add_uplinks make_t1_stack_interfaces update_all
  make_t1_dp_interfaces domain conf =
      update_all (add_uplinks conf site.uplink_ports []) (make_t1_stack_interfaces domain)

  -- `_make_t1_hardware`
  unfoldable pub make_t1_hardware : Value
  make_t1_hardware = on_option site.tier1_hardware setup.default_hardware (λ hardware. hardware)

  -- `_make_t2_hardware`
  unfoldable pub make_t2_hardware : Tier2 → Value
  make_t2_hardware conf =
      on_option conf.hardware
        (on_option site.tier2_hardware setup.default_hardware (λ hardware. hardware))
        (λ hardware. hardware)

  -- `_make_t1_dps`, for the datapath under its name.
  unfoldable pub make_t1_dp : Text → Domain → Dp
  unfolding make_t1_hardware make_t1_dp_interfaces maybe_add
  make_t1_dp domain conf = record {
    dp_id = conf.dp_id;
    combinatorial_port_flood = setup.combinatorial_port_flood;
    faucet_dp_mac = setup.faucet_dp_mac domain 1;
    hardware = make_t1_hardware;
    lacp_timeout = setup.lacp_timeout;
    lldp_beacon = setup.switch_lldp_beacon;
    interface_ranges = none;
    interfaces = make_t1_dp_interfaces domain conf;
    stack =
        some (
          maybe_add "upstream_lacp" site.upstream_lacp (field (codes "priority") (number 1) empty));
  }

  -- `_make_t2_interfaces`: where the two ports are one, the second entry stays.
  unfoldable pub make_t2_interfaces : Tier2 → ℕ → Text → Dict ℕ Fields
  unfolding make_stack_interface make_t2_cross_interface
  make_t2_interfaces conf t1_port t1_dp_name =
      insert conf.cross_port make_t2_cross_interface
        (insert conf.stack_port (make_stack_interface t1_dp_name t1_port) [])

  -- `_make_t2_dp`, given the name of the datapath of the domain.
  unfoldable pub make_t2_dp : Tier2 → ℕ → Text → Dp
  unfolding make_t2_hardware make_t2_interfaces make_device_interface
  make_t2_dp conf t1_port t1_dp_name = record {
    dp_id = conf.dp_id;
    combinatorial_port_flood = setup.combinatorial_port_flood;
    faucet_dp_mac = setup.faucet_dp_mac conf.domain 2;
    hardware = make_t2_hardware conf;
    lacp_timeout = setup.lacp_timeout;
    lldp_beacon = setup.switch_lldp_beacon;
    interface_ranges = some (site.device_ports, make_device_interface);
    interfaces = make_t2_interfaces conf t1_port t1_dp_name;
    stack = none;
  }

  -- The loop of `_make_t2_dps`.
  unfoldable pub add_t2_dps : Text → Text → Dict ℕ Tier2 → Dict Text Dp → Dict Text Dp
  unfolding make_t2_dp get_t2_dp_name
  add_t2_dps domain t1_dp_name [] dps = dps
  add_t2_dps domain t1_dp_name ((port, conf) ∷ ports) dps = add_t2_dps domain t1_dp_name ports (
      if conf.domain == domain
      then insert (get_t2_dp_name conf) (make_t2_dp conf port t1_dp_name) dps
      else dps)

  -- `_make_dps`, of a domain that the site has.
  unfoldable pub make_dps : Text → Domain → Dict Text Dp
  unfolding make_t1_dp add_t2_dps get_t1_dp_name update_all
  make_dps domain conf =
      let t1_dp_name = get_t1_dp_name domain conf in
      update_all ((t1_dp_name, make_t1_dp domain conf) ∷ [])
        (add_t2_dps domain t1_dp_name site.tier1_ports [])
