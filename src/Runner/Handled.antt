-- ===== src/Runner/Handled.antt =====
-- daq/runner.py: what the main loop calls does not turn tests on again.
use daq.Events.{Event}
use daq.Runner.{
  gateway_failed, terminate_gateway_set, Runner, Config, Surroundings, await_remote,
  handle_device_learn, handle_port_learn, handle_port_state, system_port_state, device_port_state,
  start_flapping, port_down, remote_trigger, reap_port, reap_ports, reap_stale_ports, terminate_all,
  target_set_trigger, trigger_device, trigger_all, activate_gateway, ready_target, notify_target,
  should_activate_target, act_on, check_and_activate_gateway, dhcp_ready_listener, ip_notify,
  on_device_host, Target, not_ready, already, group_ready, process_learn, process_other,
  process_state, process_faucet_event, process_current, handle_error, handle_faucet_events, Arrival,
  arrived, lost, broken, on_session, on_session_end, end_session, Request, beat_all,
  module_heartbeat, perform, Called, switched, idled, begun, over, notified, readied, target_failed,
  target_ended, keep_exception,
}
use daq.Host.{Session, heartbeat}
use daq.Runner.Activation.{Readiness}
use daq.Runner.Suppressed.{
  Stopped, stopped_rules, target_set_error-Stopped, target_set_complete-Stopped,
  target_set_trigger-Stopped, activate_port-Stopped,
}
use daq.Runner.Idling.{fail_targets-Stopped, terminate_all-Stopped, handle_system_idle-Stopped}
use daq.Base.{ℕ, String, Bool, true, Option, none, some, List, [], ◌∷◌, nat_eq, string_eq, pair_eq}
use daq.Base.Action.{Error, Action}
use daq.Base.Action.Preserves.{
  Preserves, Preserves-modify, Preserves-bind, Preserves-assert, Preserves-try,
}

pub keep_exception-Stopped : (x : Error) → Preserves Stopped (keep_exception x)
unfolding keep_exception
keep_exception-Stopped x = Preserves-modify _ (λ s h. h)

pub start_flapping-Stopped :
    (env : Surroundings) (p device : ℕ) → Preserves Stopped (start_flapping env p device)
unfolding start_flapping
start_flapping-Stopped env p device = search stopped_rules depth 12

pub port_down-Stopped : (env : Surroundings) (p : ℕ) → Preserves Stopped (port_down env p)
unfolding port_down
port_down-Stopped env p = search (stopped_rules, start_flapping-Stopped) depth 14

pub device_port_state-Stopped :
    (env : Surroundings) (port : ℕ) (active : Bool)
    → Preserves Stopped (device_port_state env port active)
unfolding device_port_state
device_port_state-Stopped env port active =
    search (stopped_rules, activate_port-Stopped, port_down-Stopped) depth 12

pub await_remote-Stopped : (device : ℕ) → Preserves Stopped (await_remote device)
unfolding await_remote
await_remote-Stopped device = search stopped_rules depth 14

pub end_session-Stopped :
    (env : Surroundings) (device : ℕ) → Preserves Stopped (end_session env device)
unfolding end_session
end_session-Stopped env device = search stopped_rules depth 12

pub on_session_end-Stopped :
    (env : Surroundings) (request : Request) → Preserves Stopped (on_session_end env request)
unfolding on_session_end
on_session_end-Stopped env request = search (stopped_rules, end_session-Stopped) depth 12

pub on_device_host-Stopped :
    {A : Type 0} (device : ℕ) (m : Action Session A) → Preserves Stopped (on_device_host device m)
unfolding on_device_host
on_device_host-Stopped device m = search stopped_rules depth 12

pub beat_all-Stopped :
    (answers : ℕ → Bool × Bool) (devices : List ℕ) → Preserves Stopped (beat_all answers devices)
unfolding beat_all
beat_all-Stopped answers [] = search stopped_rules
beat_all-Stopped answers (device ∷ devices) =
    Preserves-bind _ _
      (on_device_host-Stopped device (heartbeat (answers device).0 (answers device).1))
      (λ _. beat_all-Stopped answers devices)

pub module_heartbeat-Stopped :
    (answers : ℕ → Bool × Bool) → Preserves Stopped (module_heartbeat answers)
unfolding module_heartbeat
module_heartbeat-Stopped answers = search (stopped_rules, beat_all-Stopped) depth 12

module _ (config : Config) where
  pub trigger_device-Stopped : (device : ℕ) → Preserves Stopped (trigger_device config device)
  unfolding trigger_device
  trigger_device-Stopped device = search (stopped_rules, on_device_host-Stopped) depth 12

  pub trigger_all-Stopped : (devices : List ℕ) → Preserves Stopped (trigger_all config devices)
  unfolding trigger_all
  trigger_all-Stopped [] = search stopped_rules
  trigger_all-Stopped (o ∷ os) =
      Preserves-bind _ _ (trigger_device-Stopped o)
        (λ triggered. Preserves-bind _ _ (Preserves-assert triggered) (λ _. trigger_all-Stopped os))

  pub activate_gateway-Stopped :
      (g : ℕ) (devices : List ℕ) → Preserves Stopped (activate_gateway config g devices)
  unfolding activate_gateway
  activate_gateway-Stopped g devices = search (stopped_rules, trigger_all-Stopped) depth 12

  pub ready_target-Stopped :
      (size device g : ℕ) → Preserves Stopped (ready_target config size device g)
  unfolding ready_target
  ready_target-Stopped size device g = search stopped_rules depth 14

  pub notify_target-Stopped :
      (size device g : ℕ) → Preserves Stopped (notify_target config size device g)
  unfolding notify_target
  notify_target-Stopped size device g =
      search (stopped_rules, on_device_host-Stopped, ready_target-Stopped) depth 14

  pub should_activate_target-Stopped :
      (size device : ℕ) → Preserves Stopped (should_activate_target config size device)
  unfolding should_activate_target
  should_activate_target-Stopped size device =
      search (stopped_rules, notify_target-Stopped) depth 14

  pub act_on-Stopped :
      (device : ℕ) (decision : Option ℕ × Readiness)
      → Preserves Stopped (act_on config device decision)
  unfolding act_on
  act_on-Stopped device (gateway, not_ready) = search stopped_rules
  act_on-Stopped device (gateway, already) = search (stopped_rules, trigger_device-Stopped) depth 10
  act_on-Stopped device (none, group_ready devices) = search stopped_rules
  act_on-Stopped device (some g, group_ready devices) =
      search (stopped_rules, activate_gateway-Stopped) depth 10

  pub check_and_activate_gateway-Stopped :
      (size device : ℕ) → Preserves Stopped (check_and_activate_gateway config size device)
  unfolding check_and_activate_gateway
  check_and_activate_gateway-Stopped size device =
      search (stopped_rules, should_activate_target-Stopped, act_on-Stopped) depth 14

  pub dhcp_ready_listener-Stopped :
      (size device : ℕ) → Preserves Stopped (dhcp_ready_listener config size device)
  unfolding dhcp_ready_listener
  dhcp_ready_listener-Stopped size device =
      search (stopped_rules, check_and_activate_gateway-Stopped) depth 10

module _ (config : Config) (env : Surroundings) (drain : Action Runner (Unit {0}))
    (kept : Preserves Stopped drain) where
  pub trigger-Stopped :
      (remote : Bool) (device : ℕ)
      → Preserves Stopped (target_set_trigger config env drain remote device)
  trigger-Stopped = target_set_trigger-Stopped config env drain kept

  terminate_gateway_set-Stopped :
      (g : ℕ) → Preserves Stopped (terminate_gateway_set config env drain g)
  unfolding terminate_gateway_set
  terminate_gateway_set-Stopped g =
      search (stopped_rules, fail_targets-Stopped config env drain kept) depth 14

  pub end_all-Stopped : Preserves Stopped (terminate_all config env drain)
  end_all-Stopped = terminate_all-Stopped config env drain kept

  pub handle_device_learn-Stopped :
      (mac : String) (vid : Option ℕ)
      → Preserves Stopped (handle_device_learn config env drain mac vid)
  unfolding handle_device_learn
  handle_device_learn-Stopped mac vid =
      search (stopped_rules, await_remote-Stopped, trigger-Stopped) depth 14

  pub handle_port_learn-Stopped :
      (dpid port : ℕ) (mac : String)
      → Preserves Stopped (handle_port_learn config env drain dpid port mac)
  unfolding handle_port_learn
  handle_port_learn-Stopped dpid port mac = search (stopped_rules, trigger-Stopped) depth 14

  pub system_port_state-Stopped :
      (active : Bool) → Preserves Stopped (system_port_state config env drain active)
  unfolding system_port_state
  system_port_state-Stopped active = search (stopped_rules, end_all-Stopped) depth 14

  pub handle_port_state-Stopped :
      (dpid port : ℕ) (active : Bool)
      → Preserves Stopped (handle_port_state config env drain dpid port active)
  unfolding handle_port_state
  handle_port_state-Stopped dpid port active =
      search (stopped_rules, system_port_state-Stopped, device_port_state-Stopped) depth 10

  pub remote_trigger-Stopped :
      (device : ℕ) (vlan assigned : Option ℕ)
      → Preserves Stopped (remote_trigger config env drain device vlan assigned)
  unfolding remote_trigger
  remote_trigger-Stopped device vlan assigned = search (stopped_rules, trigger-Stopped) depth 16

  pub on_session-Stopped :
      (request : Request) → Preserves Stopped (on_session config env drain request)
  unfolding on_session
  on_session-Stopped request = search (stopped_rules, remote_trigger-Stopped) depth 16

  pub ip_notify-Stopped :
      (size : ℕ) (target : Target) → Preserves Stopped (ip_notify config env drain size target)
  unfolding ip_notify
  ip_notify-Stopped size target =
      search
        (
          stopped_rules, handle_device_learn-Stopped, on_device_host-Stopped,
          check_and_activate_gateway-Stopped,
        )
        depth 18

  pub reap_port-Stopped :
      (timeout : ℕ → Option ℕ) (device : ℕ)
      → Preserves Stopped (reap_port config env drain timeout device)
  unfolding reap_port
  reap_port-Stopped timeout device =
      search (stopped_rules, target_set_error-Stopped config env drain kept) depth 16

  pub reap_ports-Stopped :
      (timeout : ℕ → Option ℕ) (devices : List ℕ)
      → Preserves Stopped (reap_ports config env drain timeout devices)
  unfolding reap_ports
  reap_ports-Stopped timeout [] = search stopped_rules
  reap_ports-Stopped timeout (o ∷ os) =
      Preserves-bind _ _ (reap_port-Stopped timeout o) (λ _. reap_ports-Stopped timeout os)

  pub reap_stale_ports-Stopped :
      (timeout : ℕ → Option ℕ) → Preserves Stopped (reap_stale_ports config env drain timeout)
  unfolding reap_stale_ports
  reap_stale_ports-Stopped timeout = search (stopped_rules, reap_ports-Stopped) depth 10

  module _ (vlans : Bool) where
    process_learn-Stopped :
        (l : ℕ × ℕ × String × ℕ) → Preserves Stopped (process_learn config vlans env drain l)
    unfolding process_learn
    process_learn-Stopped (dpid, port, mac, vid) =
        search (stopped_rules, handle_device_learn-Stopped, handle_port_learn-Stopped) depth 12

    process_other-Stopped :
        (event : Event) → Preserves Stopped (process_other config vlans env drain event)
    unfolding process_other
    process_other-Stopped event = search (stopped_rules, process_learn-Stopped) depth 10

    process_state-Stopped :
        (event : Event) (state : ℕ × ℕ × Bool)
        → Preserves Stopped (process_state config vlans env drain event state)
    unfolding process_state
    process_state-Stopped event (dpid, port, active) =
        search (stopped_rules, process_other-Stopped, handle_port_state-Stopped) depth 10

    process_faucet_event-Stopped :
        (event : Event) → Preserves Stopped (process_faucet_event config vlans env drain event)
    unfolding process_faucet_event
    process_faucet_event-Stopped event =
        search (stopped_rules, process_other-Stopped, process_state-Stopped) depth 10

    process_current-Stopped :
        (connected : Bool) (event : Option Event)
        → Preserves Stopped (process_current config vlans env drain connected event)
    unfolding process_current
    process_current-Stopped connected none = search stopped_rules
    process_current-Stopped connected (some event) =
        search (stopped_rules, process_faucet_event-Stopped) depth 10

    pub handle_faucet_events-Stopped :
        (event : Option Event) (arrivals : List Arrival)
        → Preserves Stopped (handle_faucet_events config vlans env drain event arrivals)
    unfolding handle_faucet_events
    handle_faucet_events-Stopped event [] = search stopped_rules
    handle_faucet_events-Stopped event (arrived next ∷ rest) =
        Preserves-bind _ _ (process_current-Stopped true (some next))
          (λ _. handle_faucet_events-Stopped (some next) rest)
    handle_faucet_events-Stopped event (lost ∷ rest) = handle_faucet_events-Stopped event rest
    handle_faucet_events-Stopped event (broken ∷ rest) =
        search (stopped_rules, end_all-Stopped, process_current-Stopped) depth 10

    pub perform-Stopped :
        (called : Called) → Preserves Stopped (perform config vlans env drain called)
    unfolding perform
    perform-Stopped (switched arrivals) = handle_faucet_events-Stopped none arrivals
    perform-Stopped (idled connected answers) =
        handle_system_idle-Stopped config env drain kept connected answers
    perform-Stopped (begun request) = on_session-Stopped request
    perform-Stopped (over request) = on_session_end-Stopped env request
    perform-Stopped (notified size target) = ip_notify-Stopped size target
    perform-Stopped (readied size device) = dhcp_ready_listener-Stopped config size device
    perform-Stopped (gateway_failed g) = terminate_gateway_set-Stopped g
    perform-Stopped (target_failed device) = target_set_error-Stopped config env drain kept device
    perform-Stopped (target_ended device) = target_set_complete-Stopped config env drain kept device

    pub handle_error-Stopped :
        (on_error : Option Called)
        → Preserves Stopped (handle_error config vlans env drain on_error)
    unfolding handle_error
    handle_error-Stopped none = search stopped_rules
    handle_error-Stopped (some called) =
        Preserves-try _ _ (perform-Stopped called) (λ x. search stopped_rules)
