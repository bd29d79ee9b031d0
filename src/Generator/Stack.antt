-- ===== src/Generator/Stack.antt =====
-- The two ends of a link between the tiers name each other.
use daq.Config.Tree.{Text, text_eq}
use daq.Generator.Site.{
  add_stack_interfaces, Site, Setup, Domain, Tier2, Dp, make_dps, make_t1_dp, make_t2_dp,
  add_t2_dps, get_t1_dp_name, get_t2_dp_name, make_stack_interface, make_t2_cross_interface,
  add_uplinks,
}
use daq.Generator.Links.{
  HasDistinctKeys, leads_to, get-add_stack_interfaces, get-add_t2_dps, get-add_t2_dps-absent,
  get-update_all, get-update_all-absent, HasDistinctKeys-add_stack_interfaces,
  HasDistinctKeys-add_t2_dps,
}
use daq.Base.{
  ℕ, ◌≡◌, ap, ◌∙◌, ◌≢◌, false, some, [], ◌∷◌, arith, ◌==◌, nat_eq, string_eq, beq_self, beq_false,
  pair_eq,
}
use daq.Base.Dict.{Dict, get, insert, erase, get-insert}

-- `_make_dps` of a domain: for a port of the first tier that leads to a switch of the domain, the first
-- tier's datapath has at that port an interface that names the datapath of the switch and its stack
-- port, and that datapath has at its stack port an interface that names the first tier's datapath and
-- the port. The site lists each port once, the stack port of the switch is not its cross port, no other
-- port of the domain leads to a datapath of that name, and none to one of the first tier's name.
pub make_dps-linked :
    (setup : Setup) (site : Site) (domain : Text) (conf : Domain) (port : ℕ) (spec : Tier2)
    → HasDistinctKeys site.tier1_ports
    → get port site.tier1_ports ≡ some spec
    → spec.domain ≡ domain
    → spec.stack_port ≢ spec.cross_port
    → leads_to setup site domain (get_t2_dp_name setup site spec) (erase port site.tier1_ports)
      ≡ false
    → leads_to setup site domain (get_t1_dp_name setup site domain conf) site.tier1_ports ≡ false
    → (t1 t2 : Dp) × (get (get_t1_dp_name setup site domain conf) (make_dps setup site domain conf)
        ≡ some t1)
      × (get (get_t2_dp_name setup site spec) (make_dps setup site domain conf) ≡ some t2)
      × (get port t1.interfaces
          ≡ some (make_stack_interface setup site (get_t2_dp_name setup site spec) spec.stack_port))
      × (get spec.stack_port t2.interfaces
          ≡ some (make_stack_interface setup site (get_t1_dp_name setup site domain conf) port))
unfolding make_dps
make_dps-linked setup site domain conf port spec distinct there member ports_apart names_apart
      tiers_apart =
    let t1_name = get_t1_dp_name setup site domain conf in
    let t2_name = get_t2_dp_name setup site spec in
    let seconds = add_t2_dps setup site domain t1_name site.tier1_ports [] in
    let first : Dict Text Dp = (t1_name, make_t1_dp setup site domain conf) ∷ [] in
    let t2 = make_t2_dp setup site spec port t1_name in
    let absent =
      get-add_t2_dps-absent setup site domain t1_name t1_name site.tier1_ports [] tiers_apart in
    let present =
      get-add_t2_dps setup site domain t1_name port spec site.tier1_ports [] distinct there member
        names_apart in
    let stacked =
      get-add_stack_interfaces setup site domain port spec site.tier1_ports [] distinct there in
    let stack_distinct =
      HasDistinctKeys-add_stack_interfaces setup site domain site.tier1_ports [] tt in
    let uplinks = add_uplinks setup site conf site.uplink_ports [] in
    let ports = add_stack_interfaces setup site domain site.tier1_ports [] in
    let down = make_stack_interface setup site t2_name spec.stack_port in
    let up = make_stack_interface setup site t1_name port in
    let cross = make_t2_cross_interface setup site in
    let here : get port ports ≡ some down =
      stacked ∙ ground (arith, ap (λ d. d == domain) member, beq_self domain) in
    (
      make_t1_dp setup site domain conf,
      t2,
      get-update_all-absent t1_name first seconds (ground (arith, absent))
          ∙ ground (arith, beq_self t1_name),
      get-update_all t2_name t2 first seconds
          (HasDistinctKeys-add_t2_dps setup site domain t1_name site.tier1_ports [] tt) present,
      get-update_all port down uplinks ports stack_distinct here,
      get-insert spec.stack_port spec.cross_port cross (insert spec.stack_port up [])
          ∙ ground (
            arith,
            get-insert spec.stack_port spec.stack_port up [],
            beq_self spec.stack_port,
            beq_false spec.stack_port spec.cross_port ports_apart,
          ),
    )
