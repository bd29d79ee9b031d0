-- ===== src/Dot1x/Others.antt =====
-- subset/dot1x/authenticator/authenticator.py: what a state machine does leaves the other devices alone.
use daq.Base.{
  ℕ, String, ◌≡◌, refl, ◌∙◌, ◌≢◌, Bool, Option, none, some, arith, nat_eq, string_eq, pair_eq,
}
use daq.Base.Action.{modify}
use daq.Base.Action.Preserves.{Preserves, Preserves-modify, preserves_rules}
use daq.Dot1x.Settled.{IsSettled, result-IsSettled, eap-IsSettled, radius-IsSettled}
use daq.Dot1x.Modules.{
  EapMessage, RadiusPacketInfo, identity_message, failure_message, other_message, PacketType,
  access_accept, access_reject, access_challenge,
}
use daq.Dot1x.Machine.{eap_retry, radius_retry}
use daq.Dot1x.Machine.{
  radius_retry, eap_retry, AuthStateMachine, Session, AuthState, Retry, received_eapol_start,
  handle_timer, auth_callback, eap_send_callback, radius_send_callback, on_machine,
  state_transition, set_timeout, clear_timeout, set_retry_actions, note_identity, handle_timeout,
  call_retry, count_retry, expired, received_eap_request, received_radius_response,
}

-- A state machine of another device is at work.
pub record IsOther (mac : String) (result : Bool) (own : String) (s : Session) : Type 0 where
  pub same : s.machine.src_mac ≡ own
  pub settled : IsSettled mac result s.owner

note-src_mac :
    (message : EapMessage) (m : AuthStateMachine) → (note_identity message m).src_mac ≡ m.src_mac
unfolding note_identity
note-src_mac (identity_message identity) m = ground arith
note-src_mac failure_message m = refl
note-src_mac (other_message n) m = refl

timed-src_mac :
    (retry : Retry) (now : ℕ) (m : AuthStateMachine)
    → (set_retry_actions retry (set_timeout now m)).src_mac ≡ m.src_mac
unfolding set_retry_actions set_timeout
timed-src_mac retry now m = refl

count-src_mac :
    (now retries : ℕ) (m : AuthStateMachine) → (count_retry now retries m).src_mac ≡ m.src_mac
unfolding count_retry
count-src_mac now retries m = refl

module _ (mac : String) (result : Bool) (own : String) (ne : own ≢ mac) where
  pub machine-IsOther :
      (f : AuthStateMachine → AuthStateMachine)
      → ((m : AuthStateMachine) → (f m).src_mac ≡ m.src_mac)
      → Preserves (IsOther mac result own) (modify (on_machine f))
  unfolding on_machine
  machine-IsOther f same =
      Preserves-modify (on_machine f)
        (λ s h. record { same = same s.machine ∙ h.same; settled = h.settled })

  callback-IsOther :
      (is_success : Bool) → Preserves (IsOther mac result own) (auth_callback is_success)
  unfolding auth_callback
  callback-IsOther is_success = record {
    from = λ s h. record {
      same = h.same;
      settled =
          result-IsSettled mac result s.machine.src_mac is_success s.owner (rw h.same ne) h.settled;
    };
  }

  eap_sent :
      (message : Option EapMessage) (s : Session)
      → IsOther mac result own s
      → IsOther mac result own (eap_send_callback message s)
  unfolding eap_send_callback
  eap_sent message s h = record {
    same = h.same;
    settled = eap-IsSettled mac result s.machine.src_mac message s.owner h.settled;
  }

  eap-IsOther :
      (message : Option EapMessage)
      → Preserves (IsOther mac result own) (modify (eap_send_callback message))
  eap-IsOther message = Preserves-modify _ (eap_sent message)

  radius_sent :
      (info : RadiusPacketInfo) (s : Session)
      → IsOther mac result own s
      → IsOther mac result own (radius_send_callback info s)
  unfolding radius_send_callback
  radius_sent info s h = record {
    same = h.same;
    settled = radius-IsSettled mac result info s.owner h.settled;
  }

  radius-IsOther :
      (info : RadiusPacketInfo)
      → Preserves (IsOther mac result own) (modify (radius_send_callback info))
  radius-IsOther info = Preserves-modify _ (radius_sent info)

  transition-IsOther :
      (target : AuthState) (expected : Option AuthState)
      → Preserves (IsOther mac result own) (state_transition target expected)
  unfolding state_transition
  transition-IsOther target none = machine-IsOther _ (λ m. refl)
  transition-IsOther target (some expected) = search (preserves_rules, machine-IsOther) depth 12

  pub started-IsOther : (now : ℕ) → Preserves (IsOther mac result own) (received_eapol_start now)
  unfolding received_eapol_start
  started-IsOther now =
      search (preserves_rules, machine-IsOther, eap-IsOther, transition-IsOther, timed-src_mac)
        depth 12

  pub request-IsOther :
      (now : ℕ) (message : EapMessage)
      → Preserves (IsOther mac result own) (received_eap_request now message)
  unfolding received_eap_request
  request-IsOther now message =
      search
        (
          preserves_rules, machine-IsOther, radius-IsOther, transition-IsOther, timed-src_mac,
          note-src_mac,
        )
        depth 14

  pub response-IsOther :
      (now : ℕ) (payload : Option EapMessage) (radius_state : Option ℕ) (packet_type : PacketType)
      → Preserves
          (IsOther mac result own)
          (received_radius_response now payload radius_state packet_type)
  unfolding received_radius_response
  response-IsOther now payload radius_state access_reject =
      search (preserves_rules, machine-IsOther, eap-IsOther, transition-IsOther, callback-IsOther)
        depth 14
  response-IsOther now payload radius_state access_accept =
      search (preserves_rules, machine-IsOther, eap-IsOther, transition-IsOther, callback-IsOther)
        depth 14
  response-IsOther now payload radius_state access_challenge =
      search (preserves_rules, machine-IsOther, eap-IsOther, transition-IsOther, timed-src_mac)
        depth 14

  timeout-IsOther : Preserves (IsOther mac result own) handle_timeout
  unfolding handle_timeout clear_timeout
  timeout-IsOther =
      search (preserves_rules, machine-IsOther, eap-IsOther, transition-IsOther, callback-IsOther)
        depth 14

  retry-IsOther : (retry : Option Retry) → Preserves (IsOther mac result own) (call_retry retry)
  unfolding call_retry
  retry-IsOther none = record { from = λ s h. h }
  retry-IsOther (some (eap_retry message)) = record { from = eap_sent message }
  retry-IsOther (some (radius_retry info)) = record { from = radius_sent info }

  expired-IsOther : (now : ℕ) → Preserves (IsOther mac result own) (expired now)
  unfolding expired
  expired-IsOther now =
      search (preserves_rules, machine-IsOther, count-src_mac, retry-IsOther, timeout-IsOther) depth
        14

  pub timer-IsOther : (now : ℕ) → Preserves (IsOther mac result own) (handle_timer now)
  unfolding handle_timer
  timer-IsOther now = search (preserves_rules, expired-IsOther) depth 12
