-- ===== src/Dot1x/Authenticator.antt =====
-- subset/dot1x/authenticator/authenticator.py (Authenticator) and heartbeat_scheduler.py.
use daq.Base.{
  ℕ, String, Bool, false, not, ◌||◌, Option, none, some, List, [], ◌∷◌, ltb, if◌then◌else◌, is_some,
  nat_eq, string_eq, nonempty, pair_eq,
}
use daq.Base.Dict.{Dict, values, get, has, insert}
use daq.Base.Action.{
  missing, raised, err, Action, raise, gets, try_except, skip, modify, when, maybe, ◌>>=◌, ◌>>◌,
}
use daq.Dot1x.Modules.{EapMessage, PacketType}
use daq.Dot1x.Machine.{
  AuthStateMachine, Authenticator, Session, process_test_result, initialize, received_eapol_start,
  handle_timer,
}
use daq.Dot1x.Machine

-- A call of a method of a state machine, which stays in the table unless the call takes it out.
unfoldable pub run_machine :
    Action Session (Unit {0}) → AuthStateMachine → Action Authenticator (Unit {0})
run_machine call machine a =
    let (r, s) = call (record { machine = machine; owner = a }) in
    let mac = machine.src_mac in
    let b = s.owner in
    (
      r,
      if has mac b.state_machines
          then record b { state_machines = insert mac s.machine b.state_machines }
          else b,
    )

-- The same for the state machine of an address, a KeyError if there is none.
unfoldable pub on_state_machine :
    String → Action Session (Unit {0}) → Action Authenticator (Unit {0})
unfolding run_machine
on_state_machine src_mac call a = elim (get src_mac a.state_machines) [
  | none ↦ (err missing, a)
  | some machine ↦ run_machine call machine a
]

unfoldable pub fresh_machine : String → Authenticator → AuthStateMachine
fresh_machine src_mac a = record {
  state = none;
  src_mac = src_mac;
  identity = none;
  authentication_mac = a.eap_module.authenticator_mac;
  radius_state = none;
  idle_time = a.idle_time;
  max_retry_count = a.max_retry_count;
  current_timeout = none;
  retry = none;
  current_retries = none;
}

-- `src_mac in self.state_machines or src_mac in self.results`
unfoldable pub is_known : String → Authenticator → Bool
is_known src_mac a = has src_mac a.state_machines || has src_mac a.results

unfoldable pub add_machine : ℕ → String → Authenticator → Authenticator
unfolding fresh_machine initialize
add_machine now src_mac a = record a {
  state_machines = insert src_mac (initialize now (fresh_machine src_mac a)) a.state_machines;
}

unfoldable pub received_eap_request :
    ℕ → String → EapMessage → Bool → Action Authenticator (Unit {0})
unfolding is_known add_machine on_state_machine received_eapol_start Machine.received_eap_request
    ◌>>=◌
received_eap_request now src_mac eap_message is_eapol =
    if is_eapol
    then (gets (is_known src_mac) >>= λ known.
        when (not known)
          (modify (add_machine now src_mac) >> on_state_machine src_mac (received_eapol_start now)))
    else on_state_machine src_mac (Machine.received_eap_request now eap_message)

unfoldable pub received_radius_response :
    ℕ → String → Option EapMessage → Option ℕ → PacketType → Action Authenticator (Unit {0})
unfolding on_state_machine Machine.received_radius_response
received_radius_response now src_mac eap_message radius_state packet_type =
    on_state_machine src_mac
      (Machine.received_radius_response now eap_message radius_state packet_type)

-- The loop over `self.state_machines.values()`: a dict that changes its size during the loop raises.
unfoldable pub handle_timers : ℕ → List AuthStateMachine → Action Authenticator (Unit {0})
unfolding run_machine handle_timer ◌>>=◌
handle_timers now [] = skip
handle_timers now (machine ∷ machines) =
    run_machine (handle_timer now) machine
    >> (gets (λ a. has machine.src_mac a.state_machines) >>= λ kept.
        if kept then handle_timers now machines else raise raised)

unfoldable pub handle_sm_timeout : ℕ → Action Authenticator (Unit {0})
unfolding handle_timers process_test_result ◌>>=◌
handle_sm_timeout now = gets (λ a. a) >>= λ a.
    (if nonempty a.state_machines || not (is_some a.current_timeout)
      then handle_timers now (values a.state_machines)
      else maybe a.current_timeout skip
          (λ timeout. when (ltb timeout now) (process_test_result none false)))

-- `HeartbeatScheduler._periodic_task` with the one callback, whose exceptions are logged.
unfoldable pub periodic_task : ℕ → Action Authenticator (Unit {0})
unfolding handle_sm_timeout ◌>>=◌
periodic_task now =
    gets (λ a. a.timer_runs) >>= λ run. when run (try_except (handle_sm_timeout now) (λ _. skip))

pub data Verdict : Type 0 where
  skipped passed failed : Verdict

unfoldable pub count_verdict : Dict String Bool → Verdict
count_verdict [] = passed
count_verdict ((src_mac, is_success) ∷ results) =
    let rest = count_verdict results in if is_success then rest else failed

-- The result of `run_authentication_test` once its threads have ended.
unfoldable pub run_authentication_test : Dict String Bool → Verdict
unfolding count_verdict
run_authentication_test [] = skipped
run_authentication_test (result ∷ results) = count_verdict (result ∷ results)

-- A state machine with a message that it receives, from the switch or from the RADIUS server, and the
-- heartbeat.
pub data Input : Type 0 where
  eap_request : String → EapMessage → Bool → Input
  radius_response : String → Option EapMessage → Option ℕ → PacketType → Input
  heartbeat : Input

unfoldable pub receive : ℕ → Input → Action Authenticator (Unit {0})
unfolding received_eap_request received_radius_response periodic_task
receive now (eap_request src_mac eap_message is_eapol) =
    received_eap_request now src_mac eap_message is_eapol
receive now (radius_response src_mac eap_message radius_state packet_type) =
    received_radius_response now src_mac eap_message radius_state packet_type
receive now heartbeat = periodic_task now
