-- ===== src/Gateway/Startup.antt =====
-- daq/base_gateway.py, initialize: the warmup pings, and what is left of a failed start.
use native.Mathlib.Nat.{add-zero}
use daq.Base.{
  ℕ, zero, suc, ◌+◌, ◌≤◌, ◌≡◌, ap, ◌∙◌, subst, ◌≢◌, ◌⊎◌, inl, inr, Bool, true, false, not, none,
  some, [], arith, Bool-cases, nat_eq, string_eq,
}
use daq.Base.Action.{ok}
use daq.Gateway.{Gateway, Answers, warmup, initialize}

warmup-suc :
    (ping : ℕ → Bool) (retry k : ℕ)
    → ping k ≡ false
    → warmup ping (suc (suc retry)) k ≡ warmup ping (suc retry) (k + 1)
unfolding warmup
warmup-suc ping retry k h = ground arith

warmup-stops :
    (ping : ℕ → Bool) (retry k : ℕ) → ping k ≡ true → warmup ping (suc retry) k ≡ some (k + 1)
unfolding warmup
warmup-stops ping retry k h = ground arith

warmup-one : (ping : ℕ → Bool) (k : ℕ) → ping k ≡ false → warmup ping 1 k ≡ none
unfolding warmup
warmup-one ping k h = ground arith

-- All of the next `retry` pings fail.
abbrev pub Silent : (ℕ → Bool) → ℕ → ℕ → Type 0
Silent ping zero k = Unit
Silent ping (suc retry) k = (ping k ≡ false) × Silent ping retry (k + 1)

-- The next ping that succeeds is the j-th from `k` on.
abbrev pub Answered : (ℕ → Bool) → ℕ → ℕ → Type 0
Answered ping j k = Silent ping j k × (ping (k + j) ≡ true)

-- The warmup with at least one retry either fails, and then every one of its pings failed, or it
-- stops after the first ping that succeeds, which comes within the retries.
pub warmup_outcome :
    (ping : ℕ → Bool) (retry k : ℕ)
    → (warmup ping (suc retry) k ≡ none) × Silent ping (suc retry) k
      ⊎ ((j : ℕ) × (j ≤ retry) × (warmup ping (suc retry) k ≡ some (k + j + 1)) × Answered ping j k)
warmup_outcome ping zero k = elim (Bool-cases (ping k)) [
  | inl up ↦
      inr (0, omega arith, warmup-stops ping 0 k up ∙ ap some (omega arith), (tt, rw (add-zero) up))
  | inr down ↦ inl (warmup-one ping k down, (down, tt))
]
warmup_outcome ping (suc retry) k = elim (Bool-cases (ping k)) [
  | inl up ↦ inr (
    0,
    omega arith,
    warmup-stops ping (suc retry) k up ∙ ap some (omega arith),
    (tt, rw (add-zero) up),
  )
  | inr down ↦ elim (warmup_outcome ping retry (k + 1)) [
    | inl (e, silent) ↦ inl (warmup-suc ping retry k down ∙ e, (down, silent))
    | inr (j, below, e, (silent, up)) ↦ inr (
      suc j,
      omega arith,
      warmup-suc ping retry k down ∙ e ∙ ap some (omega arith),
      ((down, silent), subst (λ i. ping i ≡ true) (omega arith) up),
    )
  ]
]

-- With no targets, no startup scan and hosts whose termination goes through, a gateway that fails to
-- initialize raises an exception and is left with no host, no dummy and no running monitor; one that
-- initializes has its host and its DHCP monitor, and a dummy and a fake target unless it is native.
pub initialize_outcome :
    (g : Gateway) (net : Answers)
    → g.targets ≡ []
    → g.scan_monitor ≡ none
    → g.host ≡ false
    → g.dummy ≡ false
    → let (result, g') = initialize net (true, true) g in
      (result ≡ ok tt)
        × (g'.host ≡ true)
        × (g'.dhcp_monitor ≡ true)
        × (g'.dummy ≡ not g.is_native)
        × ((g.is_native ≡ true) ⊎ (g'.fake_target ≡ true))
      ⊎ (result ≢ ok tt)
        × (g'.host ≡ false)
        × (g'.dummy ≡ false)
        × (g'.dhcp_monitor ≡ false)
        × (g'.scan_monitor ≡ none)
unfolding initialize
initialize_outcome g net none_attached no_scan no_host no_dummy = ground arith
