-- ===== src/Generator/Uniform.antt =====
-- daq/generator.py: the access rules of every device port, and the top level of the outputs.
use daq.Config.Tree.{
  is_true, Text, Value, Fields, text, number, sequence, mapping, Items, item, done, empty, field,
  lookup, assign, pop, codes, text_eq,
}
use daq.Generator.Site.{get_t1_dp_name, add_t2_dps, Site, Setup, Domain, Dp, make_dps}
use daq.Base.{
  ℕ, String, Bool, true, ◌||◌, Option, none, some, List, [], ◌∷◌, ◌++◌, if◌then◌else◌, is_some,
  nat_eq, string_eq, pair_eq,
}
use daq.Base.Dict.{Dict, keys, values}

abbrev pub allowed : Option Value → Bool
allowed none = true
allowed (some value) = is_true value

abbrev pub has_key : String → Fields → Bool
has_key key entry = is_some (lookup (codes key) entry)

-- `_make_uniform_rules`, one entry.
unfoldable pub make_uniform_rule : Fields → Fields
unfolding lookup assign pop
make_uniform_rule entry =
    let allow = allowed (lookup (codes "allow") entry) in
    let action = field (codes "allow") (number (if allow then 1 else 0)) empty in
    let acting = assign (codes "actions") (mapping action) (pop (codes "allow") entry) in
    let typed =
      if has_key "dl_type" acting
      then acting
      else assign (codes "dl_type") (text (codes "0x0800")) acting in
    let tcp =
      if has_key "tcp_src" typed || has_key "tcp_dst" typed
      then assign (codes "nw_proto") (number 6) typed
      else typed in
    if has_key "udp_src" tcp || has_key "udp_dst" tcp
    then assign (codes "nw_proto") (number 17) tcp
    else tcp

abbrev as_rule : Fields → Value
as_rule entry = mapping (field (codes "rule") (mapping entry) empty)

-- `_make_uniform_rules`
unfoldable pub make_uniform_rules : List Fields → List Value
unfolding make_uniform_rule
make_uniform_rules [] = []
make_uniform_rules (entry ∷ entries) =
    as_rule (make_uniform_rule entry) ∷ make_uniform_rules entries

abbrev pub as_items : List Value → Items
as_items [] = done
as_items (value ∷ values) = item value (as_items values)

-- What the generator writes for one domain.
pub record Faucet : Type 0 where
  pub vlans : Fields
  pub dps : Dict Text Dp
  pub includes : List String
  pub version : ℕ

pub record Watcher : Type 0 where
  pub db : Text
  pub interval : Value
  pub kind : String
  pub dps : List Text

pub record Gauge : Type 0 where
  pub dbs : Fields
  pub faucet_configs : List Value
  pub watchers : Dict String Watcher

module _ (setup : Setup) (site : Site) where
  -- `_make_uniform`
  unfoldable pub make_uniform : Fields
  unfolding make_uniform_rules
  make_uniform =
      let pre_rules = make_uniform_rules setup.pre_acls in
      let site_rules = make_uniform_rules site.uniform_acls in
      let post_rules = make_uniform_rules setup.post_acls in
      field (codes "acls")
        (mapping (
          field (codes "uniform_acl")
            (sequence (as_items ((pre_rules ++ site_rules) ++ post_rules))) empty))
        empty

  -- `_make_vlans`
  unfoldable pub make_vlans : Fields
  make_vlans =
      let vlan =
        field (codes "description") setup.vlan_description
          (field (codes "vid") (number site.vlan_id) empty) in
      field setup.vlan_name (mapping vlan) empty

  -- `_make_faucet`
  unfoldable pub make_faucet : Text → Domain → Faucet
  unfolding make_dps make_vlans
  make_faucet domain conf = record {
    vlans = make_vlans;
    dps = make_dps setup site domain conf;
    includes = "uniform.yaml" ∷ [];
    version = 2;
  }

  -- `_get_all_dp_names`
  unfoldable pub get_all_dp_names : Text → Domain → List Text
  unfolding add_t2_dps get_t1_dp_name
  get_all_dp_names domain conf =
      let t1_dp_name = get_t1_dp_name setup site domain conf in
      t1_dp_name ∷ keys (add_t2_dps setup site domain t1_dp_name site.tier1_ports [])

  -- `_make_gauge_watcher`
  unfoldable pub make_gauge_watcher : Text → Domain → String → Watcher
  unfolding get_all_dp_names
  make_gauge_watcher domain conf watcher_type = record {
    db = setup.db_type;
    interval = setup.interval;
    kind = watcher_type;
    dps = get_all_dp_names domain conf;
  }

  -- `_make_gauge`, none where the type of the database is not known.
  unfoldable pub make_gauge : Text → Domain → Option Gauge
  unfolding make_gauge_watcher lookup
  make_gauge domain conf = elim (lookup setup.db_type setup.db_types) [
    | none ↦ none
    | some db ↦ some (record {
      dbs = field setup.db_type db empty;
      faucet_configs = setup.faucet_yaml ∷ [];
      watchers =
          ("flow_table", make_gauge_watcher domain conf "flow_table")
          ∷ ("port_stats", make_gauge_watcher domain conf "port_stats")
          ∷ [];
    })
  ]
