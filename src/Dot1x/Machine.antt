-- ===== src/Dot1x/Machine.antt =====
-- subset/dot1x/authenticator/authenticator.py: the state of the Authenticator, and AuthStateMachine.
use daq.Base.{
  ℕ, ◌+◌, String, Bool, true, false, not, Option, none, some, List, ltb, if◌then◌else◌, ◌==◌,
  nat_eq, string_eq, pair_eq,
}
use daq.Base.Dict.{Dict, has, insert, erase}
use daq.Base.Action.{
  missing, attribute, raised, ok, err, Action, gets, or_raise, skip, modify, assert, when, maybe,
  ◌>>=◌, ◌>>◌,
}
use daq.Dot1x.Modules.{
  EapMessage, failure_message, identity_message, RadiusPacketInfo, PacketType, access_accept,
  access_reject, access_challenge, EapModule, RadiusModule, send_eapol_response, send_eap_message,
  send_radius_packet, shut_down_eap, shut_down_radius, port_id_to_int,
}

pub data AuthState : Type 0 where
  start supplicant radius fail success : AuthState

-- `self.state == expected`
abbrev pub is_state : AuthState → Option AuthState → Bool
is_state start (some start) = true
is_state supplicant (some supplicant) = true
is_state radius (some radius) = true
is_state fail (some fail) = true
is_state success (some success) = true
is_state _ _ = false

-- `_retry_func` with `_retry_args`: `eap_send_callback` or `radius_send_callback`.
pub data Retry : Type 0 where
  eap_retry : Option EapMessage → Retry
  radius_retry : RadiusPacketInfo → Retry

pub record AuthStateMachine : Type 0 where
  pub state : Option AuthState
  pub src_mac : String
  pub identity : Option String
  pub authentication_mac : List ℕ
  pub radius_state : Option ℕ
  pub idle_time : ℕ
  pub max_retry_count : ℕ
  pub current_timeout : Option ℕ
  pub retry : Option Retry
  pub current_retries : Option ℕ

-- The state machines are kept by the address of the device; `timer_runs` is the flag of the heartbeat.
pub record Authenticator : Type 0 where
  pub state_machines : Dict String AuthStateMachine
  pub results : Dict String Bool
  pub eap_module : EapModule
  pub radius_module : RadiusModule
  pub timer_runs : Bool
  pub idle_time : ℕ
  pub max_retry_count : ℕ
  pub current_timeout : Option ℕ

-- A state machine at work: it calls back into its authenticator.
pub record Session : Type 0 where
  pub machine : AuthStateMachine
  pub owner : Authenticator

unfoldable pub end_authentication : Authenticator → Authenticator
unfolding shut_down_eap shut_down_radius
end_authentication a = record a {
  timer_runs = false;
  radius_module = shut_down_radius a.radius_module;
  eap_module = shut_down_eap a.eap_module;
}

-- With no address: no device has started.
unfoldable pub process_test_result : Option String → Bool → Action Authenticator (Unit {0})
unfolding end_authentication
process_test_result none is_success a = (ok tt, end_authentication a)
process_test_result (some src_mac) is_success a =
    let b = record a { results = insert src_mac is_success a.results } in
    if has src_mac a.state_machines
    then (ok tt, end_authentication (record b { state_machines = erase src_mac a.state_machines }))
    else (err missing, b)

unfoldable pub send_eap_response : String → Option EapMessage → Authenticator → Authenticator
unfolding send_eapol_response send_eap_message
send_eap_response src_mac none a = record a {
  eap_module = send_eapol_response src_mac a.eap_module;
}
send_eap_response src_mac (some message) a = record a {
  eap_module = send_eap_message src_mac message a.eap_module;
}

unfoldable pub send_radius_request : RadiusPacketInfo → Authenticator → Authenticator
unfolding send_radius_packet
send_radius_request info a = record a { radius_module = send_radius_packet info a.radius_module }

-- The callbacks of a state machine.
unfoldable pub auth_callback : Bool → Action Session (Unit {0})
unfolding process_test_result
auth_callback is_success s =
    let (r, a) = process_test_result (some s.machine.src_mac) is_success s.owner in
    (r, record s { owner = a })

unfoldable pub eap_send_callback : Option EapMessage → Session → Session
unfolding send_eap_response
eap_send_callback message s = record s {
  owner = send_eap_response s.machine.src_mac message s.owner;
}

unfoldable pub radius_send_callback : RadiusPacketInfo → Session → Session
unfolding send_radius_request
radius_send_callback info s = record s { owner = send_radius_request info s.owner }

unfoldable pub on_machine : (AuthStateMachine → AuthStateMachine) → Session → Session
on_machine f s = record s { machine = f s.machine }

unfoldable pub state_transition : AuthState → Option AuthState → Action Session (Unit {0})
unfolding on_machine ◌>>=◌
state_transition target none = modify (on_machine (λ m. record m { state = some target }))
state_transition target (some expected) = gets (λ s. s.machine.state) >>= λ state.
    assert (is_state expected state) >> modify (on_machine (λ m. record m { state = some target }))

-- `_set_timeout(self._idle_time)` at the time `now`, and with `clear`.
unfoldable pub set_timeout : ℕ → AuthStateMachine → AuthStateMachine
set_timeout now m = record m { current_timeout = some (now + m.idle_time) }

unfoldable pub clear_timeout : AuthStateMachine → AuthStateMachine
clear_timeout m = record m { current_timeout = none }

unfoldable pub set_retry_actions : Retry → AuthStateMachine → AuthStateMachine
set_retry_actions retry m = record m { retry = some retry; current_retries = some 0 }

unfoldable pub initialize : ℕ → AuthStateMachine → AuthStateMachine
unfolding set_timeout set_retry_actions
initialize now m =
    set_retry_actions (eap_retry none) (set_timeout now (record m { state = some start }))

unfoldable pub received_eapol_start : ℕ → Action Session (Unit {0})
unfolding state_transition set_timeout set_retry_actions on_machine eap_send_callback ◌>>=◌
received_eapol_start now =
    state_transition supplicant (some start)
    >> modify (on_machine (λ m. set_retry_actions (eap_retry none) (set_timeout now m)))
    >> modify (eap_send_callback none)

-- An empty identity is taken for none.
abbrev has_identity : Option String → Bool
has_identity none = false
has_identity (some identity) = not (identity == "")

unfoldable pub note_identity : EapMessage → AuthStateMachine → AuthStateMachine
note_identity (identity_message identity) m =
    if has_identity m.identity then m else record m { identity = some identity }
note_identity _ m = m

unfoldable pub packet_info : EapMessage → ℕ → AuthStateMachine → RadiusPacketInfo
packet_info message port_id m = record {
  payload = message;
  src_mac = m.src_mac;
  identity = m.identity;
  state = m.radius_state;
  port_id = port_id;
}

unfoldable pub received_eap_request : ℕ → EapMessage → Action Session (Unit {0})
unfolding note_identity on_machine state_transition port_id_to_int packet_info set_timeout
    set_retry_actions radius_send_callback ◌>>=◌
received_eap_request now message =
    modify (on_machine (note_identity message))
    >> state_transition radius (some supplicant)
    >> (gets (λ s. s.machine) >>= λ m.
        or_raise (port_id_to_int m.authentication_mac) raised >>= λ port_id.
        (let info = packet_info message port_id m in
          modify (on_machine (λ n. set_retry_actions (radius_retry info) (set_timeout now n)))
          >> modify (radius_send_callback info)))

unfoldable pub received_radius_response :
    ℕ → Option EapMessage → Option ℕ → PacketType → Action Session (Unit {0})
unfolding on_machine state_transition auth_callback set_timeout set_retry_actions eap_send_callback
    ◌>>=◌
received_radius_response now payload radius_state packet_type =
    modify (on_machine (λ m. record m { radius_state = radius_state })) >> elim packet_type [
      | access_reject ↦
          state_transition fail (some radius)
          >> auth_callback false
          >> modify (eap_send_callback (some failure_message))
      | access_accept ↦
          state_transition success (some radius)
          >> auth_callback true
          >> modify (eap_send_callback payload)
      | access_challenge ↦
          state_transition supplicant (some radius)
          >> modify (on_machine (λ m. set_retry_actions (eap_retry payload) (set_timeout now m)))
          >> modify (eap_send_callback payload)
    ]

unfoldable pub handle_timeout : Action Session (Unit {0})
unfolding state_transition clear_timeout on_machine auth_callback eap_send_callback ◌>>=◌
handle_timeout =
    state_transition fail none
    >> modify (on_machine clear_timeout)
    >> auth_callback false
    >> modify (eap_send_callback (some failure_message))

-- `self._retry_func(*self._retry_args)`; None cannot be called.
unfoldable pub call_retry : Option Retry → Action Session (Unit {0})
unfolding eap_send_callback radius_send_callback
call_retry none s = (err attribute, s)
call_retry (some (eap_retry message)) s = (ok tt, eap_send_callback message s)
call_retry (some (radius_retry info)) s = (ok tt, radius_send_callback info s)

unfoldable pub count_retry : ℕ → ℕ → AuthStateMachine → AuthStateMachine
unfolding set_timeout
count_retry now retries m = set_timeout now (record m { current_retries = some (retries + 1) })

unfoldable pub expired : ℕ → Action Session (Unit {0})
unfolding count_retry on_machine call_retry handle_timeout ◌>>=◌
expired now = gets (λ s. s.machine) >>= λ m. or_raise m.current_retries attribute >>= λ retries.
    (if ltb retries m.max_retry_count
      then modify (on_machine (count_retry now retries)) >> call_retry m.retry
      else handle_timeout)

unfoldable pub handle_timer : ℕ → Action Session (Unit {0})
unfolding expired ◌>>=◌
handle_timer now = gets (λ s. s.machine) >>= λ m.
    maybe m.current_timeout skip (λ timeout. when (ltb timeout now) (expired now))
