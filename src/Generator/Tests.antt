-- ===== src/Generator/Tests.antt =====
-- A site with two domains and a switch of the second tier in each.
use daq.Config.Tree.{Fields, text, number, null, empty, field, lookup, codes, text_eq, flag}
use daq.Generator.Site.{
  Site, Setup, Domain, Tier2, Dp, make_dps, get_t1_dp_name, get_t2_dp_name, make_stack_interface,
}
use daq.Generator.Links.{leads_to}
use daq.Generator.Stack.{make_dps-linked}
use daq.Generator.Flatten.{flatten_include}
use daq.Generator.Parts.{flatten_include-AreTaken, AreTaken}
use daq.Base.{
  ℕ, String, ◌≡◌, refl, true, false, none, some, [], ◌∷◌, arith, nat_eq, string_eq, pair_eq,
}
use daq.Base.Dict.{get}

abbrev setup : Setup
setup = record {
  control = codes "ctl";
  tier1 = codes "t1";
  tier2 = codes "t2";
  combinatorial_port_flood = flag true;
  faucet_dp_mac = λ domain tier. number tier;
  lacp_timeout = number 5;
  switch_lldp_beacon = null;
  port_lldp_beacon = null;
  receive_lldp = flag true;
  default_hardware = text (codes "Generic");
  egress_description = text (codes "egress");
  device_description = text (codes "device");
  loop_protect_external = true;
  uplink_iface = none;
  vlan_name = codes "vlan";
  vlan_description = null;
  pre_acls = [];
  post_acls = [];
  db_type = codes "prometheus";
  interval = number 10;
  db_types = empty;
  faucet_yaml = null;
}

abbrev one : Domain
one = record { dp_id = number 1; location = none; name = none }

abbrev switch : String → ℕ → Tier2
switch domain id = record {
  domain = codes domain;
  dp_id = number id;
  location = none;
  stack_port = 51;
  cross_port = 52;
  hardware = none;
}

abbrev site : Site
site = record {
  site_name = codes "nz";
  vlan_id = 171;
  upstream_lacp = some (number 3);
  uplink_ports = 10 ∷ 11 ∷ [];
  uplink_native = false;
  tier1_hardware = none;
  domains = (codes "1", one) ∷ (codes "2", one) ∷ [];
  tier1_ports = (1, switch "1" 121) ∷ (2, switch "2" 122) ∷ [];
  tier2_hardware = none;
  device_ports = codes "1-48";
  uniform_acls = [];
}

links_sample : get_t2_dp_name setup site (switch "1" 121) ≡ codes "nzt21"
unfolding get_t2_dp_name
links_sample = refl

make_dps-linked_example :
    (t1 t2 : Dp) × (get
        (get_t1_dp_name setup site (codes "1") one)
        (make_dps setup site (codes "1") one)
      ≡ some t1)
    × (get (get_t2_dp_name setup site (switch "1" 121)) (make_dps setup site (codes "1") one)
        ≡ some t2)
    × (get 1 t1.interfaces
        ≡ some (make_stack_interface setup site (get_t2_dp_name setup site (switch "1" 121)) 51))
    × (get 51 t2.interfaces
        ≡ some (make_stack_interface setup site (get_t1_dp_name setup site (codes "1") one) 1))
unfolding leads_to get_t1_dp_name get_t2_dp_name
make_dps-linked_example =
    make_dps-linked setup site (codes "1") one 1 (switch "1" 121) (refl, (refl, tt)) refl refl
      (omega arith) refl refl

abbrev main_conf : Fields
main_conf = field (codes "vlans") (number 171) (field (codes "version") (number 2) empty)

abbrev more_conf : Fields
more_conf = field (codes "version") (number 1) (field (codes "acls") (number 7) empty)

abbrev joint_conf : Fields
joint_conf =
    field (codes "vlans") (number 171)
      (field (codes "version") (number 2) (field (codes "acls") (number 7) empty))

flatten_include-AreTaken_example : AreTaken main_conf more_conf joint_conf
unfolding flatten_include lookup
flatten_include-AreTaken_example =
    flatten_include-AreTaken main_conf more_conf joint_conf (refl, tt, (refl, tt, tt)) refl
