-- ===== src/Host/Steps.antt =====
-- daq/host.py: the sequence of a run, from `_start_run` to `terminate`.
use daq.Base.{
  ℕ, String, Bool, true, false, not, ◌&&◌, ◌||◌, Option, none, some, List, [], ◌∷◌, ◌++◌,
  if◌then◌else◌, is_some, ◌==◌, nat_eq, string_eq, any, nonempty, contains, pair_eq,
}
use daq.Base.Action.{
  assertion, raised, Action, pure, raise, gets, or_raise, try_except, skip, modify, assert, when,
  maybe, ◌>>=◌, ◌>>◌,
}
use daq.Devices.{DhcpMode, is_external}
use daq.Gateway.{allocate_test_port, release_test_port}
use daq.Host.Machine.{
  errored, ready, init, waiting, base, monitor, next, testing, finished, hold, terminated,
  phase_beq, m_hold, m_conf, m_exec, m_fine, m_nope, m_done, m_term, m_merr, Recorded, Handler,
  aux_module, main_module, external_dhcp, ip_notify, dhcp_listeners, change_dhcp_response,
  discover_host, target_set_error, target_set_complete, Host, Session, on_host, on_gateway, call,
  transition, transition_from, keep_result, record_result, moded, failed, monitor_scan,
  monitor_cleanup, monitor_error, is_ready,
}

unfoldable pub mark_skipped : String → Action Session (Unit {0})
mark_skipped test = do
  enabled ← gets (λ s. contains s.host.enabled_tests test)
  when (not enabled) (keep_result (some test) (moded m_nope))

-- `_mark_skipped_tests`
unfoldable pub mark_skipped_tests : List String → Action Session (Unit {0})
mark_skipped_tests [] = skip
mark_skipped_tests (test ∷ tests) = mark_skipped test >> mark_skipped_tests tests

-- `_startup_scan` is the capture alone.
unfoldable pub start_run : Action Session (Unit {0})
start_run = do
  transition_from init ready
  tests ← gets (λ s. s.host.test_list)
  mark_skipped_tests tests
  record_result (some "startup") (moded m_done)
  record_result (some "sanity") (moded m_exec)
  monitor_scan

-- The end of `initialize`, after the files and the mirror interface are set up.
unfoldable pub initialize : Action Session (Unit {0})
initialize = do
  some_tests ← gets (λ s. nonempty s.host.test_list)
  paused ← gets (λ s. is_ready s.host)
  if some_tests then start_run else assert paused >> record_result (some "startup") (moded m_hold)

unfoldable pub control_updated : Bool → Action Session (Unit {0})
control_updated paused = do
  resting ← gets (λ s. is_ready s.host)
  when (not paused && resting) start_run

-- `if not self.device.dhcp_mode`: a mode of 0, which is NORMAL, counts as none.
abbrev dhcp_mode_or : Option DhcpMode → DhcpMode → DhcpMode
dhcp_mode_or none mode = mode
dhcp_mode_or (some DhcpMode.normal) mode = mode
dhcp_mode_or (some other) mode = other

unfoldable pub set_dhcp_mode : DhcpMode → Action Session (Unit {0})
set_dhcp_mode mode = modify (λ s. record s { device = record (s.device) { dhcp_mode = some mode } })

-- The `else` branch of `_prepare`; `mode` is the mode that the configuration gives.
unfoldable pub prepare_dhcp : DhcpMode → Action Session (Unit {0})
prepare_dhcp mode = do
  current ← gets (λ s. s.device.dhcp_mode)
  set_dhcp_mode (dhcp_mode_or current mode)
  if is_external (some (dhcp_mode_or current mode))
      then on_host (λ h. record h { timeout_handler = some external_dhcp })
      else call change_dhcp_response

unfoldable pub prepare : DhcpMode → Action Session (Unit {0})
prepare mode = do
  transition_from waiting init
  record_result (some "sanity") (moded m_done)
  record_result (some "acquire") (moded m_exec)
  static_ip ← gets (λ s. s.host.static_ip)
  maybe static_ip (prepare_dhcp mode)
      (λ ip. set_dhcp_mode DhcpMode.static_ip >> call (ip_notify ip))
  call dhcp_listeners

-- `ip_notify`, up to the file and the test module.
unfoldable pub host_ip_notify : String → Action Session (Unit {0})
host_ip_notify ip = on_host (λ h. record h {
  all_ips = h.all_ips ++ ip ∷ [];
  target_ip = (elim h.target_ip [ none ↦ none | some _ ↦ some ip ]);
})

-- `len(set(ips)) > 1`
unfoldable pub two_distinct : List String → Bool
two_distinct [] = false
two_distinct (ip ∷ ips) = any (λ other. not (other == ip)) ips

-- `trigger_ready`; the wait for the minimal startup time changes nothing.
unfoldable pub trigger_ready : DhcpMode → Host → Bool
trigger_ready mode h =
    phase_beq h.phase waiting
    && (elim mode [ DhcpMode.ip_change ↦ two_distinct h.all_ips | _ ↦ true ])

-- The part of `trigger` behind its tests.
unfoldable pub first_trigger : String → Action Session Bool
first_trigger ip = do
  on_host (λ h. record h { target_ip = some ip })
  keep_result (some "info") (record { mode = none; code = none; exception = false })
  record_result (some "acquire") (record { mode = none; code = none; exception = false })
  transition_from base waiting
  pure true

-- `trigger` with no exception: the only way in which the runner calls it.
unfoldable pub trigger : DhcpMode → String → Action Session Bool
trigger mode ip = do
  current ← gets (λ s. s.host.target_ip)
  prepared ← gets (λ s. trigger_ready mode s.host)
  maybe current (if prepared then first_trigger ip else pure false)
      (λ known. assert (known == ip) >> pure true)

-- `_start_test`
unfoldable pub start_test : String → Action Session (Unit {0})
start_test name = do
  on_host (λ h. record h { test_name = some name })
  keep_result (some name) (moded m_conf)
  record_result (some name) (moded m_exec)
  monitor_scan
  transition_from testing next

unfoldable pub release_own_port : Action Session (Unit {0})
release_own_port = do
  port ← gets (λ s. s.host.test_port)
  maybe port (raise assertion) (λ p. on_gateway (release_test_port p))

unfoldable pub module_start : Bool → Action Session (Unit {0})
module_start starts = or_raise (if starts then some tt else none) raised

-- `_run_test`; `starts` says whether the test module starts.
unfoldable pub run_test : Bool → String → Action Session (Unit {0})
run_test starts name = do
  on_host (λ h. record h { timeout_handler = some main_module; test_host = some name })
  port ←
      try_except (on_gateway allocate_test_port)
        (λ x. on_host (λ h. record h { test_host = none }) >> raise x)
  on_host (λ h. record h { test_port = some port })
  try_except (start_test name >> module_start starts) (λ x. do
    on_host (λ h. record h { test_host = none })
    release_own_port
    on_host (λ h. record h { test_port = none })
    monitor_cleanup true
    raise x)

-- The body of the `try` in `_run_next_test`, on the remaining tests.
unfoldable pub take_step : Bool → List String → Action Session (Unit {0})
take_step starts (test ∷ tests) =
    on_host (λ h. record h { remaining_tests = tests }) >> run_test starts test
take_step starts [] = do
  no_test ← gets (λ s. s.host.no_test)
  if no_test then transition_from hold next else (do
    on_host (λ h. record h { timeout_handler = some aux_module })
    transition_from finished next
    record_result (some "finish") (moded m_fine))

unfoldable pub next_step : Bool → Action Session (Unit {0})
next_step starts = do remaining ← gets (λ s. s.host.remaining_tests); take_step starts remaining

unfoldable pub run_next_test : Bool → Action Session (Unit {0})
run_next_test starts = do
  idle ← gets (λ s. not (is_some s.host.test_name))
  assert idle
  try_except (next_step starts) (λ x. transition errored >> call target_set_error)

-- `_end_test`, without the paths of the files.
unfoldable pub end_test : Bool → Recorded → Action Session (Unit {0})
end_test starts result = do
  monitor_cleanup true
  transition_from next testing
  name ← gets (λ s. s.host.test_name)
  record_result name result
  on_host (λ h. record h { test_name = none; test_host = none; timeout_handler = none })
  run_next_test starts

abbrev nonzero : Option ℕ → Bool
nonzero none = false
nonzero (some n) = not (n == 0)

abbrev outcome : Option ℕ → Bool → Recorded
outcome return_code exception = record {
  mode = some (if nonzero return_code || exception then m_merr else m_done);
  code = return_code;
  exception = exception;
}

-- `_module_callback`; a return code of 0 is a success.
unfoldable pub module_callback : Bool → Option ℕ → Bool → Action Session (Unit {0})
module_callback starts return_code exception = do
  release_own_port
  hosted ← gets (λ s. is_some s.host.test_host)
  assert hosted
  end_test starts (outcome return_code exception)

unfoldable pub monitor_continue : Bool → Action Session (Unit {0})
monitor_continue starts = do
  transition_from next monitor
  on_host (λ h. record h { test_name = none })
  run_next_test starts

-- `_background_scan`
unfoldable pub background_scan : Bool → Action Session (Unit {0})
background_scan starts = do
  transition_from monitor base
  seconds ← gets (λ s. s.host.monitor_scan_sec)
  if seconds == 0
      then monitor_continue starts
      else record_result (some "monitor") (moded m_exec) >> monitor_scan

-- `_monitor_timeout`, the hangup of the capture; `early` says whether it came before the time.
unfoldable pub monitor_timeout : Bool → Bool → Action Session (Unit {0})
monitor_timeout early starts = if early then monitor_error false else (do
  monitor_cleanup false
  record_result (some "monitor") (moded m_done)
  monitor_continue starts)

abbrev closed : Option Bool → Option Bool
closed none = none
closed (some active) = some false

-- The hangup of the stream of the capture, as the stream monitor makes it: the stream is closed before
-- `_monitor_timeout` is called, and an exception goes to `_monitor_error`.
unfoldable pub capture_hangup : Bool → Bool → Action Session (Unit {0})
capture_hangup early starts = do
  on_host (λ h. record h { capture = closed h.capture })
  try_except (monitor_timeout early starts) (λ x. monitor_error false)

-- `_base_tests`: `pings` are the answers to the simple ping and to the ping from the fake target. Each
-- is paired with a message before the test `not success1`, and a pair is true. None is a ping that
-- raises. The answer to the warmup ping before them is not used.
unfoldable pub base_tests : Option (Bool × Bool) → Action Session Bool
base_tests pings = do
  record_result (some "base") (moded m_exec)
  maybe pings (record_result (some "base") failed >> monitor_cleanup true >> raise raised)
      (λ _. record_result (some "base") (moded m_done) >> pure true)

unfoldable pub base_start : Bool → Option (Bool × Bool) → Action Session (Unit {0})
base_start starts pings =
    try_except
      (do
        success ← base_tests pings
        monitor_cleanup true
        if success then background_scan starts else transition errored)
      (λ x. monitor_cleanup true >> monitor_error false)

unfoldable pub idle_handler : DhcpMode → Bool → Option (Bool × Bool) → Action Session (Unit {0})
idle_handler mode starts pings = do
  phase ← gets (λ s. s.host.phase)
  if phase_beq phase init
      then prepare mode
      else if phase_beq phase base
      then base_start starts pings
      else skip

-- The handlers that `heartbeat` calls once when the time of the current step is over.
unfoldable pub run_handler : Bool → Handler → Action Session (Unit {0})
run_handler starts aux_module = monitor_error true
run_handler starts main_module = module_callback starts none true
run_handler starts external_dhcp = call discover_host

unfoldable pub heartbeat : Bool → Bool → Action Session (Unit {0})
heartbeat expired starts = do
  handler ← gets (λ s. s.host.timeout_handler)
  no_test ← gets (λ s. s.host.no_test)
  if expired && not no_test
      then maybe handler skip
          (λ f. on_host (λ h. record h { timeout_handler = none }) >> run_handler starts f)
      else skip

-- `terminate`; `ends` says whether the test module's own termination goes through, since its exception
-- is logged.
unfoldable pub terminate_rest : Bool → Bool → Action Session (Unit {0})
terminate_rest ends again = do
  monitor_cleanup true
  hosted ← gets (λ s. is_some s.host.test_host)
  when (hosted && ends) (on_host (λ h. record h { test_host = none; timeout_handler = none }))
  when again (call target_set_complete)
  record_result (some "terminate") (moded m_term)

unfoldable pub terminate : Bool → Bool → Action Session (Unit {0})
terminate ends again = transition terminated >> terminate_rest ends again
