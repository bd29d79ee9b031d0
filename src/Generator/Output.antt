-- ===== src/Generator/Output.antt =====
-- daq/generator.py: the files that a run of the generator writes.
use daq.Config.Tree.{Text, Fields, codes, text_eq}
use daq.Config.Files.{ends_with}
use daq.Generator.Site.{Site, Setup, Domain, or_blank, get_ctl_name}
use daq.Generator.Uniform.{Faucet, Gauge, make_faucet, make_gauge, make_uniform}
use daq.Generator.Flatten.{flatten_configs}
use daq.Base.{
  String, Option, none, some, List, [], ◌∷◌, ◌++◌, if◌then◌else◌, nat_eq, string_eq, pair_eq,
}
use daq.Base.Dict.{Dict, insert}

pub data Content : Type 0 where
  plain : Fields → Content
  faucet : Faucet → Content
  gauge : Gauge → Content

-- `_write_config`: the directory below `topo_dir`, the name and the content.
pub record Written : Type 0 where
  pub directory : Text
  pub filename : String
  pub content : Content

-- `_make_target`: the location and the domain.
unfoldable pub make_target : Text → Domain → Text × Text
make_target domain conf = (or_blank conf.location, domain)

module _ (setup : Setup) (site : Site) where
  -- The files of one domain.
  unfoldable pub write_domain : Text → Domain → Option (List Written)
  unfolding make_target get_ctl_name make_faucet make_gauge make_uniform
  write_domain domain conf =
      let target = make_target domain conf in
      let directory = get_ctl_name setup site (some target.0) target.1 in
      elim (make_gauge setup site domain conf) [
        | none ↦ none
        | some g ↦ some (
            record {
              directory = directory;
              filename = "faucet.yaml";
              content = faucet (make_faucet setup site domain conf);
            }
            ∷ record { directory = directory; filename = "gauge.yaml"; content = gauge g }
            ∷ record {
              directory = directory;
              filename = "uniform.yaml";
              content = plain (make_uniform setup site);
            }
            ∷ [])
      ]

  -- `_generate_topology`, of the domains of `_get_all_domains`.
  unfoldable pub generate_topology : Dict Text Domain → Option (List Written)
  unfolding write_domain
  generate_topology [] = some []
  generate_topology ((domain, conf) ∷ domains) = elim (write_domain domain conf) [
    | none ↦ none
    | some files ↦ elim (generate_topology domains) [
      | none ↦ none
      | some more ↦ some (files ++ more)
    ]
  ]

-- `_normalize_raw_topo`, of the files of the source directory: those that are no YAML files are
-- skipped, and the others are written after the includes of `faucet.yaml` are flattened.
unfoldable pub load_configs : Dict Text Fields → Dict Text Fields
unfolding ends_with
load_configs [] = []
load_configs ((filename, config) ∷ files) =
    let rest = load_configs files in
    if ends_with filename (codes ".yaml") then insert filename config rest else rest

unfoldable pub normalize_raw_topo : Dict Text Fields → Option (Dict Text Fields)
unfolding load_configs flatten_configs
normalize_raw_topo files = elim (flatten_configs (load_configs files)) [
  | none ↦ none
  | some f ↦ some (insert (codes "faucet.yaml") f.faucet_conf f.configs)
]
