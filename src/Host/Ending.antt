-- ===== src/Host/Ending.antt =====
-- daq/host.py: what a trigger, the base tests and a termination do.
use daq.Base.{
  String, ◌≡◌, refl, ◌⊎◌, inl, inr, Bool, true, false, none, some, arith, if◌then◌else◌, Bool-cases,
  Option-cases, ◌==◌, nat_eq, string_eq, pair_eq,
}
use daq.Base.Action.{assertion, ok, err, ◌>>=◌}
use daq.Base.Action.Preserves.{Preserves, preserves_rules}
use daq.Host
use daq.Host.{
  phase_beq, Session, Phase, Recorded, terminated, testing, waiting, base, first_trigger, trigger,
  trigger_ready, base_tests, on_host, on_gateway, call, transition, transition_from, keep_result,
  record_result, monitor_cleanup,
}
use daq.Host.Phases.{phase_beq→eq, only_terminated}
use daq.Host.Transitions.{terminate-Past_last}
use daq.Gateway.{Gateway}
use daq.Devices.{DhcpMode}

trigger_ready-waiting :
    (mode : DhcpMode) (h : Host.Host)
    → trigger_ready mode h ≡ true
    → phase_beq h.phase waiting ≡ true
unfolding trigger_ready
trigger_ready-waiting mode h e = elim (Bool-cases (phase_beq h.phase waiting)) [
  | inl same ↦ same
  | inr other ↦ absurd (ground arith)
]

first_trigger_lem :
    (ip : String) (s : Session)
    → phase_beq s.host.phase waiting ≡ true
    → let (result, s') = first_trigger ip s in
      (result ≡ ok true) × (s'.host.target_ip ≡ some ip) × (s'.host.phase ≡ base)
unfolding first_trigger on_host keep_result record_result transition_from transition ◌>>=◌
first_trigger_lem ip s h =
    let e = phase_beq→eq s.host.phase waiting h in (ground arith, ground arith, ground arith)

trigger-first :
    (mode : DhcpMode) (ip : String) (s : Session)
    → s.host.target_ip ≡ none
    → trigger_ready mode s.host ≡ true
    → trigger mode ip s ≡ first_trigger ip s
unfolding trigger ◌>>=◌
trigger-first mode ip s u p = ground arith

trigger-early :
    (mode : DhcpMode) (ip : String) (s : Session)
    → s.host.target_ip ≡ none
    → trigger_ready mode s.host ≡ false
    → trigger mode ip s ≡ (ok false, s)
unfolding trigger ◌>>=◌
trigger-early mode ip s u p = ground arith

trigger-again :
    (mode : DhcpMode) (ip : String) (s : Session) (known : String)
    → s.host.target_ip ≡ some known
    → trigger mode ip s ≡ ((if known == ip then ok true else err assertion), s)
unfolding trigger ◌>>=◌
trigger-again mode ip s known e = ground arith

-- A trigger before the host has an address is ignored unless the host is ready for it; then the host
-- has the address and goes on to the base tests. Later triggers must give the same address.
pub trigger_outcome :
    (mode : DhcpMode) (ip : String) (s : Session)
    → let (result, s') = trigger mode ip s in
      ((s.host.target_ip ≡ none)
        × (trigger_ready mode s.host ≡ false)
        × (result ≡ ok false)
        × (s' ≡ s))
      ⊎ ((s.host.target_ip ≡ none)
          × (trigger_ready mode s.host ≡ true)
          × (result ≡ ok true)
          × (s'.host.target_ip ≡ some ip)
          × (s'.host.phase ≡ base))
      ⊎ ((s' ≡ s)
          × (known : String) × (s.host.target_ip ≡ some known)
          × (result ≡ (if known == ip then ok true else err assertion)))
trigger_outcome mode ip s = elim (Option-cases s.host.target_ip) [
  | inl unknown ↦ elim (Bool-cases (trigger_ready mode s.host)) [
    | inl prepared ↦
        let (er, et, ep) = first_trigger_lem ip s (trigger_ready-waiting mode s.host prepared) in
        inr (
          inl (
            unknown,
            prepared,
            rw (trigger-first mode ip s unknown prepared) er,
            rw (trigger-first mode ip s unknown prepared) et,
            rw (trigger-first mode ip s unknown prepared) ep,
          ))
    | inr early ↦ let e = trigger-early mode ip s unknown early in inl (unknown, early, rw e, rw e)
  ]
  | inr (known, e) ↦ let r = trigger-again mode ip s known e in inr (inr (rw r, known, e, rw r))
]

-- The base tests pass whatever the two pings answer: only a ping that raises makes them fail.
pub base_tests_pass : (pings : Bool × Bool) (s : Session) → (base_tests (some pings) s).0 ≡ ok true
unfolding base_tests record_result on_host keep_result ◌>>=◌
base_tests_pass pings s = refl

module _ (g : Gateway) where
  abbrev SameGateway : Session → Type 0
  SameGateway s = s.gateway ≡ g

  on_host-SameGateway : (f : Host.Host → Host.Host) → Preserves SameGateway (on_host f)
  unfolding on_host
  on_host-SameGateway f = record { from = λ s h. h }

  call-SameGateway : (c : Host.Call) → Preserves SameGateway (call c)
  unfolding call
  call-SameGateway c = record { from = λ s h. h }

  terminate-SameGateway : (ends again : Bool) → Preserves SameGateway (Host.terminate ends again)
  unfolding Host.terminate Host.terminate_rest transition monitor_cleanup record_result keep_result
  terminate-SameGateway ends again =
      search (preserves_rules, on_host-SameGateway, call-SameGateway) depth 12

-- Terminating a host never gives back a test port of its gateway: also in the middle of a test, the
-- ports in use stay as they were although the host is terminated.
pub terminate_keeps_port :
    (ends again : Bool) (s : Session)
    → let s' = (Host.terminate ends again s).1 in
      (s'.host.phase ≡ terminated) × (s'.gateway ≡ s.gateway)
terminate_keeps_port ends again s = (
  only_terminated _ (terminate-Past_last ends again s),
  (terminate-SameGateway s.gateway ends again).from s refl,
)
