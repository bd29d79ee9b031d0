-- ===== src/Generator/Links.antt =====
-- What the loops of the generator leave under a port and under the name of a datapath.
use daq.Config.Tree.{Text, Fields, text_eq}
use daq.Generator.Site.{
  Site, Setup, Tier2, Dp, make_t2_dp, add_t2_dps, get_t2_dp_name, make_t1_stack_interface,
  make_t2_cross_interface, add_stack_interfaces, update_all,
}
use daq.Base.{
  ℕ, ◌≡◌, refl, sym, ◌∙◌, subst, inl, inr, Bool, true, false, ◌&&◌, ◌||◌, none, some, [], ◌∷◌,
  arith, if◌then◌else◌, Bool-cases, Option-cases, Eq, ◌==◌, nat_eq, string_eq, beq_self, beq→eq,
  beq_false, any, pair_eq,
}
use daq.Base.Dict.{Dict, get, has, insert, erase, get-insert}

-- A dict has each key once.
abbrev pub HasDistinctKeys {ℓ κ} : {K : Type ℓ} {V : Type κ} ⦃e : Eq K⦄ → Dict K V → Type 0
HasDistinctKeys [] = Unit
HasDistinctKeys ((k, v) ∷ d) = (has k d ≡ false) × HasDistinctKeys d

module _ {ℓ κ} {K : Type ℓ} {V : Type κ} ⦃e : Eq K⦄ where
  get-has : (k : K) (d : Dict K V) → has k d ≡ false → get k d ≡ none
  get-has k d h = elim (Option-cases (get k d)) [
    | inl gone ↦ gone
    | inr (v, there) ↦ absurd (ground (arith, there))
  ]

  pub get-update_all-absent :
      (k : K) (d more : Dict K V) → has k more ≡ false → get k (update_all d more) ≡ get k d
  unfolding update_all
  get-update_all-absent k d [] h = refl
  get-update_all-absent k d ((j, v) ∷ more) h = elim (Bool-cases (k == j)) [
    | inl same ↦ absurd (ground (arith, same))
    | inr other ↦
        get-update_all-absent k (insert j v d) more (ground (arith, other))
        ∙ ground (arith, get-insert k j v d, other)
  ]

  pub get-update_all :
      (k : K) (v : V) (d more : Dict K V)
      → HasDistinctKeys more
      → get k more ≡ some v
      → get k (update_all d more) ≡ some v
  unfolding update_all
  get-update_all k v d [] distinct h = absurd (cc)
  get-update_all k v d ((j, w) ∷ more) distinct h = elim (Bool-cases (k == j)) [
    | inl same ↦
        let eq = beq→eq k j same in
        let gone : has k more ≡ false = subst (λ i. has i more ≡ false) (sym eq) distinct.0 in
        get-update_all-absent k (insert j w d) more gone ∙ ground (arith, get-insert k j w d, same)
    | inr other ↦ get-update_all k v (insert j w d) more distinct.1 (ground (arith, other))
  ]

  has-insert : (j k : K) (v : V) (d : Dict K V) → has j (insert k v d) ≡ (j == k || has j d)
  has-insert j k v d = ground (arith, get-insert j k v d)

  HasDistinctKeys-insert :
      (k : K) (v : V) (d : Dict K V) → HasDistinctKeys d → HasDistinctKeys (insert k v d)
  HasDistinctKeys-insert k v [] h = (refl, tt)
  HasDistinctKeys-insert k v ((j, w) ∷ d) h = elim (Bool-cases (k == j)) [
    | inl same ↦ rw same h
    | inr other ↦ rw other (
      has-insert j k v d ∙ ground (arith, beq_false j k (λ q. cc (other, q, beq_self k)), h.0),
      HasDistinctKeys-insert k v d h.1,
    )
  ]

module _ (setup : Setup) (site : Site) where
  abbrev interface_of : Text → Tier2 → Fields
  interface_of domain spec =
      if spec.domain == domain
      then make_t1_stack_interface setup site spec
      else make_t2_cross_interface setup site

  get-add_stack_interfaces-absent :
      (domain : Text) (port : ℕ) (ports : Dict ℕ Tier2) (interfaces : Dict ℕ Fields)
      → has port ports ≡ false
      → get port (add_stack_interfaces setup site domain ports interfaces) ≡ get port interfaces
  unfolding add_stack_interfaces
  get-add_stack_interfaces-absent domain port [] interfaces h = refl
  get-add_stack_interfaces-absent domain port ((p, s) ∷ ports) interfaces h =
      elim (Bool-cases (port == p)) [
        | inl same ↦ absurd (ground (arith, same))
        | inr other ↦
            get-add_stack_interfaces-absent domain port ports
              (insert p (interface_of domain s) interfaces) (ground (arith, other))
            ∙ ground (arith, get-insert port p (interface_of domain s) interfaces, other)
      ]

  pub get-add_stack_interfaces :
      (domain : Text) (port : ℕ) (spec : Tier2) (ports : Dict ℕ Tier2) (interfaces : Dict ℕ Fields)
      → HasDistinctKeys ports
      → get port ports ≡ some spec
      → get port (add_stack_interfaces setup site domain ports interfaces)
        ≡ some (interface_of domain spec)
  unfolding add_stack_interfaces
  get-add_stack_interfaces domain port spec [] interfaces d h = absurd (cc)
  get-add_stack_interfaces domain port spec ((p, s) ∷ ports) interfaces d h =
      elim (Bool-cases (port == p)) [
        | inl same ↦
            let eq = beq→eq port p same in
            let gone : has port ports ≡ false = subst (λ i. has i ports ≡ false) (sym eq) d.0 in
            let it : s ≡ spec = ground (arith, same) in
            get-add_stack_interfaces-absent domain port ports
              (insert p (interface_of domain s) interfaces) gone
            ∙ rw it (ground (arith, get-insert port p (interface_of domain spec) interfaces, same))
        | inr other ↦
            get-add_stack_interfaces domain port spec ports
              (insert p (interface_of domain s) interfaces) d.1 (ground (arith, other))
      ]

  pub HasDistinctKeys-add_stack_interfaces :
      (domain : Text) (ports : Dict ℕ Tier2) (interfaces : Dict ℕ Fields)
      → HasDistinctKeys interfaces
      → HasDistinctKeys (add_stack_interfaces setup site domain ports interfaces)
  unfolding add_stack_interfaces
  HasDistinctKeys-add_stack_interfaces domain [] interfaces h = h
  HasDistinctKeys-add_stack_interfaces domain ((p, s) ∷ ports) interfaces h =
      HasDistinctKeys-add_stack_interfaces domain ports
        (insert p (interface_of domain s) interfaces)
        (HasDistinctKeys-insert p (interface_of domain s) interfaces h)

  -- Another entry of the domain leads to a datapath of that name.
  unfoldable pub leads_to : Text → Text → Dict ℕ Tier2 → Bool
  leads_to domain name ports =
      any (λ p. p.1.domain == domain && get_t2_dp_name setup site p.1 == name) ports

  leads_to-erase :
      (domain name : Text) (port : ℕ) (ports : Dict ℕ Tier2)
      → has port ports ≡ false
      → leads_to domain name (erase port ports) ≡ leads_to domain name ports
  unfolding leads_to
  leads_to-erase domain name port [] h = refl
  leads_to-erase domain name port ((p, s) ∷ ports) h = elim (Bool-cases (port == p)) [
    | inl same ↦ absurd (ground (arith, same))
    | inr other ↦
        let ih = leads_to-erase domain name port ports (ground (arith, other)) in rw other (cc (ih))
  ]

  pub get-add_t2_dps-absent :
      (domain t1_dp_name name : Text) (ports : Dict ℕ Tier2) (dps : Dict Text Dp)
      → leads_to domain name ports ≡ false
      → get name (add_t2_dps setup site domain t1_dp_name ports dps) ≡ get name dps
  unfolding add_t2_dps leads_to
  get-add_t2_dps-absent domain t1_dp_name name [] dps h = refl
  get-add_t2_dps-absent domain t1_dp_name name ((p, s) ∷ ports) dps h =
      elim (Bool-cases (s.domain == domain)) [
        | inl here ↦
            let other : (get_t2_dp_name setup site s == name) ≡ false = ground (arith, here) in
            let back : (name == get_t2_dp_name setup site s) ≡ false =
              beq_false name (get_t2_dp_name setup site s) (λ q. cc (other, q, beq_self name)) in
            let dp = make_t2_dp setup site s p t1_dp_name in
            rw here (
              get-add_t2_dps-absent domain t1_dp_name name ports
                (insert (get_t2_dp_name setup site s) dp dps) (ground (arith, here))
              ∙ ground (arith, get-insert name (get_t2_dp_name setup site s) dp dps, back))
        | inr away ↦
            rw away (get-add_t2_dps-absent domain t1_dp_name name ports dps (ground (arith, away)))
      ]

  pub get-add_t2_dps :
      (domain t1_dp_name : Text) (port : ℕ) (spec : Tier2) (ports : Dict ℕ Tier2)
      (dps : Dict Text Dp)
      → HasDistinctKeys ports
      → get port ports ≡ some spec
      → spec.domain ≡ domain
      → leads_to domain (get_t2_dp_name setup site spec) (erase port ports) ≡ false
      → get (get_t2_dp_name setup site spec) (add_t2_dps setup site domain t1_dp_name ports dps)
        ≡ some (make_t2_dp setup site spec port t1_dp_name)
  unfolding add_t2_dps leads_to
  get-add_t2_dps domain t1_dp_name port spec [] dps d h m apart = absurd (cc)
  get-add_t2_dps domain t1_dp_name port spec ((p, s) ∷ ports) dps d h m apart =
      elim (Bool-cases (port == p)) [
        | inl same ↦
            let eq = beq→eq port p same in
            let it : s ≡ spec = ground (arith, same) in
            let gone : has port ports ≡ false = subst (λ i. has i ports ≡ false) (sym eq) d.0 in
            let name = get_t2_dp_name setup site spec in
            let rest : leads_to domain name ports ≡ false =
              sym (leads_to-erase domain name port ports gone)
              ∙ unfold leads_to in ground (arith, same, apart) in
            let dp = make_t2_dp setup site spec port t1_dp_name in
            let here : (spec.domain == domain) ≡ true = rw m (beq_self domain) in
            rw (it, here, sym eq)
              (get-add_t2_dps-absent domain t1_dp_name name ports (insert name dp dps) rest
                ∙ ground (arith, get-insert name name dp dps, beq_self name))
        | inr other ↦
            get-add_t2_dps domain t1_dp_name port spec ports
              (if s.domain == domain
                then insert (get_t2_dp_name setup site s) (make_t2_dp setup site s p t1_dp_name) dps
                else dps)
              d.1 (ground (arith, other)) m (ground (arith, other, apart))
      ]

  pub HasDistinctKeys-add_t2_dps :
      (domain t1_dp_name : Text) (ports : Dict ℕ Tier2) (dps : Dict Text Dp)
      → HasDistinctKeys dps
      → HasDistinctKeys (add_t2_dps setup site domain t1_dp_name ports dps)
  unfolding add_t2_dps
  HasDistinctKeys-add_t2_dps domain t1_dp_name [] dps h = h
  HasDistinctKeys-add_t2_dps domain t1_dp_name ((p, s) ∷ ports) dps h =
      elim (Bool-cases (s.domain == domain)) [
        | inl here ↦ rw here (
            HasDistinctKeys-add_t2_dps domain t1_dp_name ports
              (insert (get_t2_dp_name setup site s) (make_t2_dp setup site s p t1_dp_name) dps)
              (HasDistinctKeys-insert (get_t2_dp_name setup site s)
                (make_t2_dp setup site s p t1_dp_name) dps h))
        | inr away ↦ rw away (HasDistinctKeys-add_t2_dps domain t1_dp_name ports dps h)
      ]
