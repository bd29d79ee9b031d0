-- ===== src/Topology/Uplink.antt =====
-- daq/topology.py: what the rules of a port let through.
use daq.Base.{
  ℕ, String, ◌≡◌, Bool, true, false, Option, none, some, List, [], ◌∷◌, arith, nat_eq, string_eq,
  All, All-append, contains, contains-append, pair_eq,
}
use daq.Base.Dict.{values}
use daq.Base.Action.{Result, ok, err, Action}
use daq.Base.Action.Preserves.{Preserves, Preserves-bind, preserves_rules}
use daq.Topology.{Topology, Target}
use daq.Topology.Templates.{PortRule, Specs}
use daq.Topology.PortRules.{
  augment_sec_port_acl, append_rule, append_resolved, append_loaded, append_port_rules,
  append_target_rules, append_augmented_rule, append_template_rule, append_template_rules,
  append_acl_template, append_default_acl_rules, append_device_default_allow, append_device_rules,
  generate_port_acl,
}

-- The rule drops the frame, or sends it to the uplink port, among others.
abbrev pub is_uplinked : ℕ → PortRule → Bool
is_uplinked sec_port r = elim r.output [
  | none ↦ (elim r.allow [ some false ↦ true | _ ↦ false ])
  | some output ↦ contains output.0 sec_port
]

abbrev pub AreUplinked : ℕ → List PortRule → Type 0
AreUplinked sec_port = All (λ r. is_uplinked sec_port r ≡ true)

module _ (sec_port : ℕ) where
  abbrev ResultUplinked : Result PortRule → Type 0
  ResultUplinked (err x) = Unit
  ResultUplinked (ok rule) = is_uplinked sec_port rule ≡ true

  augment-uplinked :
      (acl : PortRule) (ports : Option (List ℕ)) (dl_dst : Option String)
      → ResultUplinked (augment_sec_port_acl sec_port acl ports dl_dst)
  unfolding augment_sec_port_acl
  augment-uplinked acl none dl_dst = ground arith
  augment-uplinked acl (some ports) dl_dst =
      ground (arith, contains-append ports (sec_port ∷ []) sec_port)

  abbrev Kept : {A : Type 0} → Action (List PortRule) A → Type 0
  Kept m = Preserves (AreUplinked sec_port) m

  rule-Kept : (r : Result PortRule) → ResultUplinked r → Kept (append_rule r)
  unfolding append_rule
  rule-Kept (err x) u = record { from = λ s h. h }
  rule-Kept (ok rule) u = record {
    from = λ s h. All-append (λ r. is_uplinked sec_port r ≡ true) s (rule ∷ []) h (u, tt);
  }

  targets-Kept :
      (acl : PortRule) (targets : List Target) → Kept (append_target_rules sec_port acl targets)
  unfolding append_target_rules
  targets-Kept acl [] = search preserves_rules
  targets-Kept acl (target ∷ targets) =
      Preserves-bind _ _
        (rule-Kept _ (augment-uplinked acl (some (target.port ∷ [])) (some target.mac)))
        (λ _. targets-Kept acl targets)

  augmented-Kept :
      (acl : PortRule) (targets : Option (List Target))
      → Kept (append_augmented_rule sec_port acl targets)
  unfolding append_augmented_rule
  augmented-Kept acl none = search (preserves_rules, rule-Kept, augment-uplinked) depth 12
  augmented-Kept acl (some targets) =
      search (preserves_rules, rule-Kept, augment-uplinked, targets-Kept) depth 12

  resolved-Kept :
      (port_targets : List Target) (acl : PortRule) (targets : Result (Option (List Target)))
      → Kept (append_resolved sec_port port_targets acl targets)
  unfolding append_resolved
  resolved-Kept port_targets acl (err x) = search preserves_rules
  resolved-Kept port_targets acl (ok targets) = augmented-Kept acl targets

  template_rule-Kept :
      (port_targets : List Target) (specs : Specs) (target_mac : Option String) (acl : PortRule)
      → Kept (append_template_rule sec_port port_targets specs target_mac acl)
  unfolding append_template_rule
  template_rule-Kept port_targets specs target_mac acl = search resolved-Kept

  template_rules-Kept :
      (port_targets : List Target) (specs : Specs) (target_mac : Option String)
      (acls : List PortRule)
      → Kept (append_template_rules sec_port port_targets specs target_mac acls)
  unfolding append_template_rules
  template_rules-Kept port_targets specs target_mac [] = search preserves_rules
  template_rules-Kept port_targets specs target_mac (acl ∷ acls) =
      Preserves-bind _ _ (template_rule-Kept port_targets specs target_mac acl)
        (λ _. template_rules-Kept port_targets specs target_mac acls)

  loaded-Kept :
      (port_targets : List Target) (specs : Specs) (target_mac : Option String)
      (loaded : Result (List PortRule))
      → Kept (append_loaded sec_port port_targets specs target_mac loaded)
  unfolding append_loaded
  loaded-Kept port_targets specs target_mac (err x) = search preserves_rules
  loaded-Kept port_targets specs target_mac (ok acls) =
      search (preserves_rules, template_rules-Kept) depth 12

  template-Kept :
      (port_targets : List Target) (specs : Option Specs) (device_type : String)
      (target_mac : Option String)
      → Kept (append_acl_template sec_port port_targets specs device_type target_mac)
  unfolding append_acl_template
  template-Kept port_targets none device_type target_mac = search preserves_rules
  template-Kept port_targets (some specs) device_type target_mac = search loaded-Kept

  default-Kept :
      (port_targets : List Target) (specs : Option Specs)
      → Kept (append_default_acl_rules sec_port port_targets specs)
  unfolding append_default_acl_rules
  default-Kept port_targets specs = search (preserves_rules, template-Kept, augmented-Kept) depth 12

  default_allow-Kept :
      (port_targets : List Target) (specs : Specs) (mac : String)
      → Kept (append_device_default_allow sec_port port_targets specs mac)
  unfolding append_device_default_allow
  default_allow-Kept port_targets specs mac = search (preserves_rules, augmented-Kept) depth 12

  device-Kept :
      (port_targets : List Target) (specs : Specs) (mac : String)
      → Kept (append_device_rules sec_port port_targets specs mac)
  unfolding append_device_rules
  device-Kept port_targets specs mac =
      search (preserves_rules, template-Kept, default_allow-Kept) depth 12

port-Kept :
    (specs : Option Specs) (t : Topology) (port : ℕ)
    → Kept t.sec_port (append_port_rules specs t port)
unfolding append_port_rules
port-Kept none t port = default-Kept t.sec_port (values t.port_targets) none
port-Kept (some specs) t port = search (preserves_rules, default-Kept, device-Kept) depth 12

-- What a port lets through goes to the uplink. Whatever the specifications and the templates are, each rule
-- that is written for a port, also before the writing fails, drops the frames that it applies to or sends
-- them to the uplink port, to which it may add ports of targets.
pub generate_port_acl-AreUplinked :
    (specs : Option Specs) (t : Topology) (port : ℕ)
    → AreUplinked t.sec_port (generate_port_acl specs t port).1
unfolding generate_port_acl
generate_port_acl-AreUplinked specs t port = (port-Kept specs t port).from _ (ground arith, tt)
