-- ===== src/Gateway/Targets.antt =====
-- daq/base_gateway.py: the targets that are attached to a gateway.
use daq.Base.{
  ℕ, String, ◌≡◌, refl, sym, ◌∙◌, ◌≢◌, ◌↔◌, inl, inr, Bool, true, none, [], ◌∷◌, arith, Bool-cases,
  ◌==◌, nat_eq, string_eq, beq_self, beq_false, length, nonempty, pair_eq,
}
use daq.Base.Dict.{Dict, get, has, insert, erase, get-insert, get-erase}
use daq.Base.Action.{assertion, ok, err}
use daq.Gateway.{Gateway, attach_target, detach_target, terminate}

-- A gateway that has targets cannot be terminated, and the attempt changes nothing.
pub terminate_attached :
    (g : Gateway) (ends : Bool × Bool)
    → nonempty g.targets ≡ true
    → terminate ends g ≡ (err assertion, g)
unfolding terminate
terminate_attached g ends h = ground arith

length-none : (d : Dict String ℕ) → ((m : String) → get m d ≡ none) → length d ≡ 0
length-none [] h = refl
length-none ((k, v) ∷ d) h = absurd (ground (arith, h k, beq_self k))

none-length : (d : Dict String ℕ) (m : String) → length d ≡ 0 → get m d ≡ none
none-length [] m h = refl
none-length (x ∷ d) m h = absurd (omega arith)

-- Detaching an attached target leaves no others exactly if none other was attached: only then does
-- the call return 0, on which the runner retires the gateway.
pub detach_target_last :
    (g : Gateway) (mac : String)
    → has mac g.targets ≡ true
    → (n : ℕ) × ((detach_target mac g).0 ≡ ok n)
      × ((n ≡ 0) ↔ ((m : String) → m ≢ mac → get m g.targets ≡ none))
unfolding detach_target
detach_target_last g mac h = (
  length (erase mac g.targets),
  rw h,
  (
    λ e m ne.
        sym (get-erase m mac g.targets ∙ rw (beq_false m mac ne))
        ∙ none-length (erase mac g.targets) m e,
    λ alone. length-none (erase mac g.targets) (λ m. erased alone m),
  ),
)
  where
    erased :
        ((m : String) → m ≢ mac → get m g.targets ≡ none)
        → (m : String) → get m (erase mac g.targets) ≡ none
    erased alone m = elim (Bool-cases (m == mac)) [
      | inl same ↦ get-erase m mac g.targets ∙ rw same
      | inr other ↦
          get-erase m mac g.targets
          ∙ rw other (alone m (λ e. ground (arith, string_eq.beq_iff m mac)))
    ]

-- A device that is attached and detached again leaves the targets as they were.
pub detach-attach_target :
    (g : Gateway) (mac : String) (device n : ℕ)
    → (attach_target mac device g).0 ≡ ok n
    → let (result, g') = detach_target mac (attach_target mac device g).1 in
      (result ≢ err assertion) × ((m : String) → get m g'.targets ≡ get m g.targets)
unfolding attach_target detach_target
detach-attach_target g mac device n h = elim (Bool-cases (has mac g.targets)) [
  | inl taken ↦ absurd (ground arith)
  | inr free ↦ (
    ground (arith, get-insert mac mac device g.targets, beq_self mac),
    λ m. ground (
      arith,
      get-insert mac mac device g.targets,
      beq_self mac,
      get-erase m mac (insert mac device g.targets),
      get-insert m mac device g.targets,
      string_eq.beq_iff m mac,
    ),
  )
]
