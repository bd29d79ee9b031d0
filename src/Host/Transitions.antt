-- ===== src/Host/Transitions.antt =====
-- daq/host.py: the callbacks of a run never take a host back to an earlier stage.
use daq.Devices.{DhcpMode}
use daq.Host
use daq.Base.{
  ℕ, String, refl, Bool, true, Option, none, List, [], ◌∷◌, arith, nat_eq, string_eq, pair_eq,
}
use daq.Base.Action.{◌>>=◌}
use daq.Base.Action.Preserves.{Preserves, Preserves-after, preserves_rules}
use daq.Host.{
  terminate_rest, discover_host, Handler, next_step, base_tests, end_test, host_ip_notify,
  base_start, notify_activate, monitor_timeout, capture_hangup, heartbeat, run_handler,
  module_callback, monitor_continue, idle_handler, background_scan, run_next_test, take_step,
  mark_skipped, run_test, prepare, monitor_cleanup, start_run, trigger, prepare_dhcp,
  release_own_port, monitor_scan, start_test, module_start, first_trigger, control_updated,
  monitor_error, set_dhcp_mode, mark_skipped_tests, Call, on_gateway, call, on_host, Host, Phase,
  errored, ready, init, waiting, base, monitor, next, testing, finished, hold, terminated,
  phase_code, phase_beq, Recorded, Session, transition, transition_from, keep_result, record_result,
}
use daq.Host.Phases.{
  Past, errored-Past, terminated-Past, on_host-Past, on_gateway-Past, call-Past, keep_result-Past,
  record_result-Past, monitor_base-Past, next_monitor-Past, testing_next-Past, next_testing-Past,
  hold_next-Past, finished_next-Past, monitor_scan-Past, monitor_cleanup-Past, monitor_error-Past,
  prepare-Past,
}

module _ {n : ℕ} where
  start_test-Past : (name : String) → Preserves (Past n) (start_test name)
  unfolding start_test
  start_test-Past name =
      search
        (
          preserves_rules, on_host-Past, keep_result-Past, record_result-Past, monitor_scan-Past,
          testing_next-Past,
        )
        depth 8

  release_own_port-Past : Preserves (Past n) release_own_port
  unfolding release_own_port
  release_own_port-Past = search (preserves_rules, on_gateway-Past) depth 8

  module_start-Past : (starts : Bool) → Preserves (Past n) (module_start starts)
  unfolding module_start
  module_start-Past starts = search preserves_rules

  run_test-Past : (starts : Bool) (name : String) → Preserves (Past n) (run_test starts name)
  unfolding run_test
  run_test-Past starts name =
      search
        (
          preserves_rules, on_host-Past, on_gateway-Past, start_test-Past, module_start-Past,
          release_own_port-Past, monitor_cleanup-Past,
        )
        depth 10

  take_step-Past :
      (starts : Bool) (tests : List String) → Preserves (Past n) (take_step starts tests)
  unfolding take_step
  take_step-Past starts (t ∷ tests) = search (preserves_rules, on_host-Past, run_test-Past) depth 8
  take_step-Past starts [] =
      search (preserves_rules, on_host-Past, hold_next-Past, finished_next-Past, record_result-Past)
        depth 8

  next_step-Past : (starts : Bool) → Preserves (Past n) (next_step starts)
  unfolding next_step
  next_step-Past starts = search (preserves_rules, take_step-Past) depth 8

  run_next_test-Past : (starts : Bool) → Preserves (Past n) (run_next_test starts)
  unfolding run_next_test
  run_next_test-Past starts =
      search (preserves_rules, next_step-Past, errored-Past, call-Past) depth 8

  end_test-Past : (starts : Bool) (r : Recorded) → Preserves (Past n) (end_test starts r)
  unfolding end_test
  end_test-Past starts r =
      search
        (
          preserves_rules, monitor_cleanup-Past, next_testing-Past, record_result-Past,
          on_host-Past, run_next_test-Past,
        )
        depth 10

  pub module_callback-Past :
      (starts : Bool) (code : Option ℕ) (x : Bool)
      → Preserves (Past n) (module_callback starts code x)
  unfolding module_callback
  module_callback-Past starts code x =
      search (preserves_rules, release_own_port-Past, end_test-Past) depth 10

  monitor_continue-Past : (starts : Bool) → Preserves (Past n) (monitor_continue starts)
  unfolding monitor_continue
  monitor_continue-Past starts =
      search (preserves_rules, next_monitor-Past, on_host-Past, run_next_test-Past) depth 10

  background_scan-Past : (starts : Bool) → Preserves (Past n) (background_scan starts)
  unfolding background_scan
  background_scan-Past starts =
      search
        (
          preserves_rules, monitor_base-Past, monitor_continue-Past, record_result-Past,
          monitor_scan-Past,
        )
        depth 10

  pub monitor_timeout-Past :
      (early starts : Bool) → Preserves (Past n) (monitor_timeout early starts)
  unfolding monitor_timeout
  monitor_timeout-Past early starts =
      search
        (
          preserves_rules, monitor_error-Past, monitor_cleanup-Past, record_result-Past,
          monitor_continue-Past,
        )
        depth 10

  pub capture_hangup-Past : (early starts : Bool) → Preserves (Past n) (capture_hangup early starts)
  unfolding capture_hangup
  capture_hangup-Past early starts =
      search (preserves_rules, on_host-Past, monitor_timeout-Past, monitor_error-Past) depth 10

  base_tests-Past : (pings : Option (Bool × Bool)) → Preserves (Past n) (base_tests pings)
  unfolding base_tests
  base_tests-Past pings =
      search (preserves_rules, record_result-Past, monitor_cleanup-Past) depth 10

  base_start-Past :
      (starts : Bool) (pings : Option (Bool × Bool)) → Preserves (Past n) (base_start starts pings)
  unfolding base_start
  base_start-Past starts pings =
      search
        (
          preserves_rules, base_tests-Past, monitor_cleanup-Past, background_scan-Past,
          errored-Past, monitor_error-Past,
        )
        depth 10

  pub idle_handler-Past :
      (mode : DhcpMode) (starts : Bool) (pings : Option (Bool × Bool))
      → Preserves (Past n) (idle_handler mode starts pings)
  unfolding idle_handler
  idle_handler-Past mode starts pings =
      search (preserves_rules, prepare-Past, base_start-Past) depth 10

  run_handler-Past : (starts : Bool) (f : Handler) → Preserves (Past n) (run_handler starts f)
  unfolding run_handler
  run_handler-Past starts Handler.aux_module = monitor_error-Past true
  run_handler-Past starts Handler.main_module = module_callback-Past starts none true
  run_handler-Past starts Handler.external_dhcp = call-Past Call.discover_host

  pub heartbeat-Past : (expired starts : Bool) → Preserves (Past n) (heartbeat expired starts)
  unfolding heartbeat
  heartbeat-Past expired starts = search (preserves_rules, on_host-Past, run_handler-Past) depth 10

  terminate_rest-Past : (ends again : Bool) → Preserves (Past n) (terminate_rest ends again)
  unfolding terminate_rest
  terminate_rest-Past ends again =
      search (preserves_rules, monitor_cleanup-Past, on_host-Past, call-Past, record_result-Past)
        depth 10

  pub terminate-Past : (ends again : Bool) → Preserves (Past n) (Host.terminate ends again)
  unfolding Host.terminate
  terminate-Past ends again =
      search (preserves_rules, terminated-Past, terminate_rest-Past) depth 10

  pub notify_activate-Past : Preserves (Past n) notify_activate
  unfolding notify_activate
  notify_activate-Past = search (preserves_rules, keep_result-Past) depth 10

  pub ip_notify-Past : (ip : String) → Preserves (Past n) (host_ip_notify ip)
  unfolding host_ip_notify
  ip_notify-Past ip = on_host-Past _ (λ h. refl)

transition-terminated : (s : Session) → Past 8 (transition terminated s).1
unfolding transition on_host ◌>>=◌
transition-terminated s = ground arith

pub terminate-Past_last : (ends again : Bool) (s : Session) → Past 8 (Host.terminate ends again s).1
unfolding Host.terminate
terminate-Past_last ends again =
    Preserves-after {P = Past 8} (transition terminated) (λ _. terminate_rest ends again)
      transition-terminated (λ _. terminate_rest-Past ends again)
