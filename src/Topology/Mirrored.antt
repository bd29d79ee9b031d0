-- ===== src/Topology/Mirrored.antt =====
-- daq/topology.py: where the rules of the primary switch mirror a frame.
use daq.Base.{
  ℕ, String, ◌≡◌, refl, ap, subst, inl, inr, Bool, true, false, not, ◌&&◌, Option, none, some, List,
  [], ◌∷◌, ◌++◌, arith, if◌then◌else◌, Bool-cases, is_some, Eq, ◌==◌, nat_eq, string_eq, beq_self,
  beq→eq, append_assoc, pair_eq,
}
use daq.Base.Dict.{get}
use daq.Topology.Rules.{
  Vid, vid, no_vlan, Rule, Mirrors, mirror_rules, mirror_ports, mirror_rule, pair_rules,
  source_rules, broadcast_mac,
}

-- What a switch matches of a frame that comes in.
pub record Frame : Type 0 where
  pub dl_src : String
  pub dl_dst : String
  pub vlan : Option ℕ
  pub dl_type : String
  pub eth_type : ℕ
  pub nw_proto : Option ℕ
  pub udp_src : Option ℕ
  pub udp_dst : Option ℕ
  pub ipv4_dst : Option String

abbrev fits {ℓ} : {A : Type ℓ} ⦃e : Eq A⦄ → Option A → A → Bool
fits none x = true
fits (some y) x = y == x

abbrev fits_option {ℓ} : {A : Type ℓ} ⦃e : Eq A⦄ → Option A → Option A → Bool
fits_option none x = true
fits_option (some y) none = false
fits_option (some y) (some x) = y == x

abbrev fits_vlan : Option Vid → Option ℕ → Bool
fits_vlan none vlan = true
fits_vlan (some no_vlan) vlan = not (is_some vlan)
fits_vlan (some (vid v)) vlan = fits_option (some v) vlan

-- The rule applies to the frame: it does so if each of its fields has the value that the frame has.
abbrev pub applies : Frame → Rule → Bool
applies f r =
    fits r.dl_src f.dl_src
    && (fits r.dl_dst f.dl_dst
        && (fits_vlan r.vlan_vid f.vlan
            && (fits r.dl_type f.dl_type
                && (fits r.eth_type f.eth_type
                    && (fits_option r.nw_proto f.nw_proto
                        && (fits_option r.udp_src f.udp_src
                            && (fits_option r.udp_dst f.udp_dst
                                && fits_option r.ipv4_dst f.ipv4_dst)))))))

-- The first rule that applies decides.
abbrev pub first_match : Frame → List Rule → Option Rule
first_match f [] = none
first_match f (r ∷ rules) = if applies f r then some r else first_match f rules

-- Where a frame goes that is sent by a target with the mirror port `mirror`.
abbrev pub mirrored_to : Frame → Mirrors → ℕ → List ℕ
mirrored_to f mirrors mirror =
    if f.dl_dst == broadcast_mac
    then mirror_ports mirrors
    else if f.dl_dst == f.dl_src
    then mirror ∷ []
    else elim (get f.dl_dst mirrors) [ none ↦ mirror ∷ [] | some other ↦ mirror ∷ other ∷ [] ]

-- The ports of the first rule that applies.
abbrev pub ports_of : Option Rule → Option (List ℕ)
ports_of none = none
ports_of (some r) = elim r.output [ none ↦ none | some output ↦ output.ports ]

module _ (f : Frame) (untagged : f.vlan ≡ none) where
  pair-first :
      (mirror : ℕ) (mirrors : Mirrors) (rules : List Rule)
      → ports_of (first_match f (pair_rules f.dl_src mirror mirrors ++ rules)) ≡ (
          if f.dl_dst == f.dl_src
          then ports_of (first_match f rules)
          else elim (get f.dl_dst mirrors) [
            | none ↦ ports_of (first_match f rules)
            | some other ↦ some (mirror ∷ other ∷ [])
          ])
  unfolding pair_rules
  pair-first mirror [] rules = ground arith
  pair-first mirror ((dst, dst_mirror) ∷ mirrors) rules = ground (
    arith,
    pair-first mirror mirrors rules,
    string_eq.beq_iff dst f.dl_src,
    string_eq.beq_iff dst f.dl_dst,
    string_eq.beq_iff f.dl_dst dst,
    string_eq.beq_iff f.dl_dst f.dl_src,
    beq_self f.dl_src,
  )

  pair-other :
      (src : String) (mirror : ℕ) (mirrors : Mirrors) (rules : List Rule)
      → (src == f.dl_src) ≡ false
      → first_match f (pair_rules src mirror mirrors ++ rules) ≡ first_match f rules
  unfolding pair_rules
  pair-other src mirror [] rules ne = refl
  pair-other src mirror ((dst, dst_mirror) ∷ mirrors) rules ne =
      ground (arith, pair-other src mirror mirrors rules ne)

  source-first :
      (mirror : ℕ) (mirrors : Mirrors) (rules : List Rule)
      → ports_of (first_match f (source_rules mirrors f.dl_src mirror ++ rules))
        ≡ some (mirrored_to f mirrors mirror)
  unfolding source_rules
  source-first mirror mirrors rules = ground (
    arith,
    pair-first mirror mirrors (mirror_rule f.dl_src none (mirror ∷ []) ∷ rules),
    append_assoc (pair_rules f.dl_src mirror mirrors) (mirror_rule f.dl_src none (mirror ∷ []) ∷ [])
        rules,
    string_eq.beq_iff broadcast_mac f.dl_dst,
    string_eq.beq_iff f.dl_dst broadcast_mac,
    beq_self f.dl_src,
  )

  source-other :
      (src : String) (mirror : ℕ) (mirrors : Mirrors) (rules : List Rule)
      → (src == f.dl_src) ≡ false
      → first_match f (source_rules mirrors src mirror ++ rules) ≡ first_match f rules
  unfolding source_rules
  source-other src mirror mirrors rules ne = ground (
    arith,
    pair-other src mirror mirrors (mirror_rule src none (mirror ∷ []) ∷ rules) ne,
    append_assoc (pair_rules src mirror mirrors) (mirror_rule src none (mirror ∷ []) ∷ []) rules,
  )

  beq_flip : (a b : String) → (a == b) ≡ false → (b == a) ≡ false
  beq_flip a b h = ground (arith, string_eq.beq_iff a b, string_eq.beq_iff b a)

  source-match :
      (src : String) (mirror : ℕ) (mirrors : Mirrors) (rules : List Rule)
      → ports_of (first_match f (source_rules mirrors src mirror ++ rules)) ≡ (
          if f.dl_src == src
          then some (mirrored_to f mirrors mirror)
          else ports_of (first_match f rules))
  source-match src mirror mirrors rules = elim (Bool-cases (f.dl_src == src)) [
    | inl same ↦ rw same (
        subst
          (λ a.
            ports_of (first_match f (source_rules mirrors a mirror ++ rules))
            ≡ some (mirrored_to f mirrors mirror))
          (beq→eq f.dl_src src same) (source-first mirror mirrors rules))
    | inr other ↦
        rw other (ap ports_of (source-other src mirror mirrors rules (beq_flip f.dl_src src other)))
  ]

  mirror-cons :
      (mirrors rest : Mirrors) (src : String) (mirror : ℕ) (rules : List Rule)
      → mirror_rules mirrors ((src, mirror) ∷ rest) ++ rules
        ≡ source_rules mirrors src mirror ++ (mirror_rules mirrors rest ++ rules)
  unfolding mirror_rules
  mirror-cons mirrors rest src mirror rules =
      append_assoc (source_rules mirrors src mirror) (mirror_rules mirrors rest) rules

  mirror-nil : (mirrors : Mirrors) → mirror_rules mirrors [] ≡ []
  unfolding mirror_rules
  mirror-nil mirrors = refl

  mirror-rest :
      (mirrors rest : Mirrors) (rules : List Rule)
      → ports_of (first_match f (mirror_rules mirrors rest ++ rules)) ≡ (elim (get f.dl_src rest) [
        | none ↦ ports_of (first_match f rules)
        | some mirror ↦ some (mirrored_to f mirrors mirror)
      ])
  mirror-rest mirrors [] rules = rw (mirror-nil mirrors) refl
  mirror-rest mirrors ((src, mirror) ∷ rest) rules = ground (
    arith,
    mirror-cons mirrors rest src mirror rules,
    source-match src mirror mirrors (mirror_rules mirrors rest ++ rules),
    mirror-rest mirrors rest rules,
  )

-- The mirrors of a port set. A frame without a vlan that comes in from one of the targets of the set is
-- sent, by the first of the rules that applies: to the mirror ports of all the targets if it is a
-- broadcast, to those of both targets if it is for another target of the set, and else to that of the
-- target that sent it. A frame from elsewhere is left to the rules that follow.
pub mirror_rules-first :
    (f : Frame) (mirrors : Mirrors) (rules : List Rule)
    → f.vlan ≡ none
    → ports_of (first_match f (mirror_rules mirrors mirrors ++ rules))
      ≡ (elim (get f.dl_src mirrors) [
        | none ↦ ports_of (first_match f rules)
        | some mirror ↦ some (mirrored_to f mirrors mirror)
      ])
mirror_rules-first f mirrors rules untagged = mirror-rest f untagged mirrors mirrors rules
