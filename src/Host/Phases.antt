-- ===== src/Host/Phases.antt =====
-- daq/host.py: no method ever takes a host back to an earlier stage of its run.
use daq.Devices.{DhcpMode}
use daq.Host
use daq.Base.{
  ℕ, zero, suc, ◌≤◌, String, ◌≡◌, refl, sym, ap, ◌∙◌, inl, inr, Bool, true, Option, none, some,
  List, [], ◌∷◌, arith, nat_beq_iff, Bool-cases, nat_eq, string_eq,
}
use daq.Base.Action.{Action, ◌>>=◌}
use daq.Base.Action.Preserves.{Preserves, Preserves-modify, Preserves-bind, preserves_rules}
use daq.Gateway.{Gateway}
use daq.Host.{
  discover_host, Handler, next_step, base_tests, end_test, host_ip_notify, base_start,
  notify_activate, monitor_timeout, heartbeat, run_handler, module_callback, monitor_continue,
  idle_handler, background_scan, run_next_test, take_step, mark_skipped, run_test, prepare,
  monitor_cleanup, start_run, trigger, prepare_dhcp, release_own_port, monitor_scan, start_test,
  module_start, first_trigger, control_updated, monitor_error, set_dhcp_mode, mark_skipped_tests,
  Call, on_gateway, call, on_host, Host, Phase, errored, ready, init, waiting, base, monitor, next,
  testing, finished, hold, terminated, phase_code, phase_beq, Recorded, Session, transition,
  transition_from, keep_result, record_result,
}

-- How far a run has come.
abbrev pub stage : Phase → ℕ
stage ready = 0
stage init = 1
stage waiting = 2
stage base = 3
stage monitor = 4
stage next = 5
stage testing = 5
stage finished = 6
stage hold = 6
stage errored = 7
stage terminated = 8

-- The run has come at least as far as `n`.
abbrev pub Past : ℕ → Session → Type 0
Past n s = n ≤ stage s.host.phase

pub only_terminated : (p : Phase) → 8 ≤ stage p → p ≡ terminated
only_terminated p h = ground arith

abbrev decode : ℕ → Phase
decode zero = errored
decode (suc zero) = ready
decode (suc (suc zero)) = init
decode (suc (suc (suc zero))) = waiting
decode (suc (suc (suc (suc zero)))) = base
decode (suc (suc (suc (suc (suc zero))))) = monitor
decode (suc (suc (suc (suc (suc (suc zero)))))) = next
decode (suc (suc (suc (suc (suc (suc (suc zero))))))) = testing
decode (suc (suc (suc (suc (suc (suc (suc (suc zero)))))))) = finished
decode (suc (suc (suc (suc (suc (suc (suc (suc (suc zero))))))))) = hold
decode (suc (suc (suc (suc (suc (suc (suc (suc (suc (suc n)))))))))) = terminated

decode-phase_code : (p : Phase) → decode (phase_code p) ≡ p
decode-phase_code errored = refl
decode-phase_code _ = refl

pub phase_beq→eq : (p q : Phase) → phase_beq p q ≡ true → p ≡ q
phase_beq→eq p q h =
    sym (decode-phase_code p)
    ∙ ap decode ((nat_beq_iff (phase_code p) (phase_code q)).0 h)
    ∙ decode-phase_code q

module _ {n : ℕ} where
  transition_from-Past :
      (t e : Phase) → stage e ≤ stage t → Preserves (Past n) (transition_from t e)
  unfolding transition_from transition on_host ◌>>=◌
  transition_from-Past t e h = record {
    from = λ s p. elim (Bool-cases (phase_beq s.host.phase e)) [
      | inl same ↦ ground (arith, ap stage (phase_beq→eq s.host.phase e same))
      | inr other ↦ rw other p
    ];
  }

  pub errored-Past : Preserves (Past n) (transition errored)
  unfolding transition on_host ◌>>=◌
  errored-Past = record { from = λ s p. ground arith }

  pub terminated-Past : Preserves (Past n) (transition terminated)
  unfolding transition on_host ◌>>=◌
  terminated-Past = record { from = λ s p. ground arith }

  pub on_host-Past :
      (f : Host → Host) → ((h : Host) → (f h).phase ≡ h.phase) → Preserves (Past n) (on_host f)
  unfolding on_host
  on_host-Past f same = record { from = λ s p. omega (arith, ap stage (same s.host)) }

  pub on_gateway-Past : {A : Type 0} (m : Action Gateway A) → Preserves (Past n) (on_gateway m)
  unfolding on_gateway
  on_gateway-Past m = record { from = λ s p. p }

  pub call-Past : (c : Call) → Preserves (Past n) (call c)
  unfolding call
  call-Past c = record { from = λ s p. p }

  pub keep_result-Past :
      (name : Option String) (r : Recorded) → Preserves (Past n) (keep_result name r)
  unfolding keep_result
  keep_result-Past none r = search preserves_rules
  keep_result-Past (some name) r = on_host-Past _ (λ h. refl)

  pub record_result-Past :
      (name : Option String) (r : Recorded) → Preserves (Past n) (record_result name r)
  unfolding record_result
  record_result-Past name r = search (preserves_rules, keep_result-Past, on_host-Past)

  pub init_ready-Past : Preserves (Past n) (transition_from init ready)
  init_ready-Past = transition_from-Past init ready (omega arith)

  pub waiting_init-Past : Preserves (Past n) (transition_from waiting init)
  waiting_init-Past = transition_from-Past waiting init (omega arith)

  pub base_waiting-Past : Preserves (Past n) (transition_from base waiting)
  base_waiting-Past = transition_from-Past base waiting (omega arith)

  pub monitor_base-Past : Preserves (Past n) (transition_from monitor base)
  monitor_base-Past = transition_from-Past monitor base (omega arith)

  pub next_monitor-Past : Preserves (Past n) (transition_from next monitor)
  next_monitor-Past = transition_from-Past next monitor (omega arith)

  pub testing_next-Past : Preserves (Past n) (transition_from testing next)
  testing_next-Past = transition_from-Past testing next (omega arith)

  pub next_testing-Past : Preserves (Past n) (transition_from next testing)
  next_testing-Past = transition_from-Past next testing (omega arith)

  pub hold_next-Past : Preserves (Past n) (transition_from hold next)
  hold_next-Past = transition_from-Past hold next (omega arith)

  pub finished_next-Past : Preserves (Past n) (transition_from finished next)
  finished_next-Past = transition_from-Past finished next (omega arith)

  pub monitor_scan-Past : Preserves (Past n) monitor_scan
  unfolding monitor_scan
  monitor_scan-Past = search (preserves_rules, on_host-Past)

  pub monitor_cleanup-Past : (forget : Bool) → Preserves (Past n) (monitor_cleanup forget)
  unfolding monitor_cleanup
  monitor_cleanup-Past forget = search (preserves_rules, on_host-Past) depth 8

  pub monitor_error-Past : (forget : Bool) → Preserves (Past n) (monitor_error forget)
  unfolding monitor_error
  monitor_error-Past forget =
      search (preserves_rules, monitor_cleanup-Past, record_result-Past, errored-Past, call-Past)
        depth 8

  pub mark_skipped-Past : (test : String) → Preserves (Past n) (mark_skipped test)
  unfolding mark_skipped
  mark_skipped-Past test = search (preserves_rules, keep_result-Past) depth 8

  pub mark_skipped_tests-Past :
      (tests : List String) → Preserves (Past n) (mark_skipped_tests tests)
  unfolding mark_skipped_tests
  mark_skipped_tests-Past [] = search preserves_rules
  mark_skipped_tests-Past (t ∷ tests) =
      Preserves-bind _ _ (mark_skipped-Past t) (λ _. mark_skipped_tests-Past tests)

  pub start_run-Past : Preserves (Past n) start_run
  unfolding start_run
  start_run-Past =
      search
        (
          preserves_rules, init_ready-Past, mark_skipped_tests-Past, record_result-Past,
          monitor_scan-Past,
        )
        depth 8

  pub initialize-Past : Preserves (Past n) Host.initialize
  unfolding Host.initialize
  initialize-Past = search (preserves_rules, start_run-Past, record_result-Past) depth 8

  pub control_updated-Past : (paused : Bool) → Preserves (Past n) (control_updated paused)
  unfolding control_updated
  control_updated-Past paused = search (preserves_rules, start_run-Past) depth 8

  pub set_dhcp_mode-Past : (mode : DhcpMode) → Preserves (Past n) (set_dhcp_mode mode)
  unfolding set_dhcp_mode
  set_dhcp_mode-Past mode = Preserves-modify _ (λ s p. p)

  pub prepare_dhcp-Past : (mode : DhcpMode) → Preserves (Past n) (prepare_dhcp mode)
  unfolding prepare_dhcp
  prepare_dhcp-Past mode =
      search (preserves_rules, set_dhcp_mode-Past, on_host-Past, call-Past) depth 8

  pub prepare-Past : (mode : DhcpMode) → Preserves (Past n) (prepare mode)
  unfolding prepare
  prepare-Past mode =
      search
        (
          preserves_rules, waiting_init-Past, record_result-Past, prepare_dhcp-Past,
          set_dhcp_mode-Past, call-Past,
        )
        depth 9

  pub first_trigger-Past : (ip : String) → Preserves (Past n) (first_trigger ip)
  unfolding first_trigger
  first_trigger-Past ip =
      search
        (preserves_rules, on_host-Past, keep_result-Past, record_result-Past, base_waiting-Past)
        depth 8

  pub trigger-Past : (mode : DhcpMode) (ip : String) → Preserves (Past n) (trigger mode ip)
  unfolding trigger
  trigger-Past mode ip = search (preserves_rules, first_trigger-Past) depth 8
