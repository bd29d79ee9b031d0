-- ===== src/Dot1x/Recorded.antt =====
-- subset/dot1x/authenticator/authenticator.py (Authenticator): a result stays.
use daq.Dot1x.Machine.{initialize}
use daq.Dot1x.Authenticator.{fresh_machine}
use daq.Base.{
  ℕ, String, ◌≡◌, refl, ◌≢◌, inl, inr, Bool, true, false, not, ◌||◌, Option, none, some, List, [],
  ◌∷◌, arith, ltb, Bool-cases, Option-cases, is_some, nat_eq, string_eq, nonempty, All, pair_eq,
}
use daq.Base.Dict.{values, get, get-insert}
use daq.Base.Action.{raised, Action, skip, when, maybe}
use daq.Base.Action.Preserves.{
  Preserves, Preserves-bind, Preserves-gets, Preserves-if, Preserves-raise, preserves_rules,
}
use daq.Dot1x.Modules.{EapMessage, PacketType}
use daq.Dot1x.Machine.{
  AuthStateMachine, Authenticator, Session, received_eapol_start, handle_timer, process_test_result,
}
use daq.Dot1x.Settled.{IsSettled, IsKeyed-insert, get-IsKeyed, values-IsKeyed}
use daq.Dot1x.Others.{IsOther, started-IsOther, request-IsOther, response-IsOther, timer-IsOther}
use daq.Dot1x.Authenticator.{
  Input, eap_request, radius_response, heartbeat, receive, received_eap_request,
  received_radius_response, handle_timers, handle_sm_timeout, periodic_task, run_machine,
  on_state_machine, is_known, add_machine,
}

module _ (mac : String) (result : Bool) where
  -- A call that a state machine of another device can be given.
  abbrev IsApart : Action Session (Unit {0}) → Type 0
  IsApart call = (own : String) → own ≢ mac → Preserves (IsOther mac result own) call

  run-IsSettled :
      (call : Action Session (Unit {0})) (machine : AuthStateMachine)
      → IsApart call
      → machine.src_mac ≢ mac
      → Preserves (IsSettled mac result) (run_machine call machine)
  unfolding run_machine
  run-IsSettled call machine apart ne = record {
    from = λ a h.
        let s = (call (record { machine = machine; owner = a })).1 in
        let k =
          (apart machine.src_mac ne).from (record { machine = machine; owner = a })
            (record { same = refl; settled = h }) in
        record {
          recorded = ground (arith, k.settled.recorded);
          gone = ground (
            arith,
            k.settled.gone,
            get-insert mac machine.src_mac s.machine s.owner.state_machines,
            string_eq.beq_iff mac machine.src_mac,
          );
          keyed = ground (
            arith,
            k.settled.keyed,
            IsKeyed-insert machine.src_mac s.machine s.owner.state_machines k.same,
          );
        };
  }

  found-other :
      (src_mac : String) (machine : AuthStateMachine) (a : Authenticator)
      → IsSettled mac result a
      → get src_mac a.state_machines ≡ some machine
      → machine.src_mac ≢ mac
  found-other src_mac machine a h found = λ same.
      ground
        (arith, found, h.gone, same, get-IsKeyed src_mac machine a.state_machines h.keyed found)

  on-IsSettled :
      (src_mac : String) (call : Action Session (Unit {0}))
      → IsApart call
      → Preserves (IsSettled mac result) (on_state_machine src_mac call)
  unfolding on_state_machine
  on-IsSettled src_mac call apart = record {
    from = λ a h. elim (Option-cases (get src_mac a.state_machines)) [
      | inl free ↦ rw (on_state_machine, free) h
      | inr (machine, found) ↦
          rw (on_state_machine, found)
            ((run-IsSettled call machine apart (found-other src_mac machine a h found)).from a h)
    ];
  }

  add-IsSettled :
      (now : ℕ) (src_mac : String) (a : Authenticator)
      → is_known src_mac a ≡ false
      → IsSettled mac result a
      → IsSettled mac result (add_machine now src_mac a)
  unfolding add_machine is_known
  add-IsSettled now src_mac a new h = record {
    recorded = h.recorded;
    gone = ground (
      arith,
      h.gone,
      h.recorded,
      get-insert mac src_mac (initialize now (fresh_machine src_mac a)) a.state_machines,
      string_eq.beq_iff mac src_mac,
    );
    keyed = IsKeyed-insert src_mac _ a.state_machines refl h.keyed;
  }

  start-IsSettled :
      (now : ℕ) (src_mac : String) (message : EapMessage)
      → Preserves (IsSettled mac result) (received_eap_request now src_mac message true)
  unfolding received_eap_request
  start-IsSettled now src_mac message = record {
    from = λ a h. elim (Bool-cases (is_known src_mac a)) [
      | inl known ↦ rw (received_eap_request, known) h
      | inr new ↦
          rw (received_eap_request, new)
            ((on-IsSettled src_mac (received_eapol_start now)
                (λ own ne. started-IsOther mac result own ne now)).from
              (add_machine now src_mac a) (add-IsSettled now src_mac a new h))
    ];
  }

  request-IsSettled :
      (now : ℕ) (src_mac : String) (message : EapMessage) (is_eapol : Bool)
      → Preserves (IsSettled mac result) (received_eap_request now src_mac message is_eapol)
  unfolding received_eap_request
  request-IsSettled now src_mac message true = start-IsSettled now src_mac message
  request-IsSettled now src_mac message false =
      on-IsSettled src_mac _ (λ own ne. request-IsOther mac result own ne now message)

  response-IsSettled :
      (now : ℕ) (src_mac : String) (message : Option EapMessage) (state : Option ℕ)
      (packet_type : PacketType)
      → Preserves
          (IsSettled mac result)
          (received_radius_response now src_mac message state packet_type)
  unfolding received_radius_response
  response-IsSettled now src_mac message state packet_type =
      on-IsSettled src_mac _
        (λ own ne. response-IsOther mac result own ne now message state packet_type)

  timers-IsSettled :
      (now : ℕ) (machines : List AuthStateMachine)
      → All (λ m. m.src_mac ≢ mac) machines
      → Preserves (IsSettled mac result) (handle_timers now machines)
  unfolding handle_timers
  timers-IsSettled now [] others = search preserves_rules
  timers-IsSettled now (machine ∷ machines) others =
      Preserves-bind _ _
        (run-IsSettled (handle_timer now) machine (λ own ne. timer-IsOther mac result own ne now)
          others.0)
        (λ _. Preserves-bind _ _ (Preserves-gets _) (λ kept.
          Preserves-if kept _ _ (timers-IsSettled now machines others.1) (Preserves-raise raised)))

  nobody-IsSettled : Preserves (IsSettled mac result) (process_test_result none false)
  unfolding process_test_result
  nobody-IsSettled = record {
    from = λ a h. record { recorded = h.recorded; gone = h.gone; keyed = h.keyed };
  }

  idle-IsSettled :
      (now : ℕ) (timeout : Option ℕ)
      → Preserves
          (IsSettled mac result)
          (maybe timeout skip (λ t. when (ltb t now) (process_test_result none false)))
  idle-IsSettled now timeout = search (preserves_rules, nobody-IsSettled) depth 10

  timeout-IsSettled : (now : ℕ) → Preserves (IsSettled mac result) (handle_sm_timeout now)
  unfolding handle_sm_timeout
  timeout-IsSettled now = record {
    from = λ a h.
        (Preserves-if (nonempty a.state_machines || not (is_some a.current_timeout)) _ _
            (timers-IsSettled now (values a.state_machines)
              (values-IsKeyed mac a.state_machines h.keyed h.gone))
            (idle-IsSettled now a.current_timeout)).from
          a h;
  }

  task-IsSettled : (now : ℕ) → Preserves (IsSettled mac result) (periodic_task now)
  unfolding periodic_task
  task-IsSettled now = search (preserves_rules, timeout-IsSettled) depth 12

  receive-kept : (now : ℕ) (input : Input) → Preserves (IsSettled mac result) (receive now input)
  unfolding receive
  receive-kept now (eap_request src_mac message is_eapol) =
      request-IsSettled now src_mac message is_eapol
  receive-kept now (radius_response src_mac message state packet_type) =
      response-IsSettled now src_mac message state packet_type
  receive-kept now heartbeat = task-IsSettled now

-- A result stays. If a device has a result and no state machine, and each state machine is kept by its
-- own address, then this holds after any message and any heartbeat, at any time, also if the call
-- raises: the result is the same, and no test of the device is started again.
pub receive-IsSettled :
    (mac : String) (result : Bool) (now : ℕ) (input : Input) (a : Authenticator)
    → IsSettled mac result a
    → IsSettled mac result (receive now input a).1
receive-IsSettled mac result now input = (receive-kept mac result now input).from
