-- ===== src/Runner/Loop.antt =====
-- daq/runner.py: the switch events and the sessions that reach the runner, and the main loop.
use daq.Devices
use daq.Devices.{DhcpMode, get_triggered_devices, truthy}
use daq.Host
use daq.Events.{Event, as_port_state, as_port_learn}
use daq.Runner.State.{
  Runner, Config, Surroundings, on_registry, on_device, on_port, the_device, the_port, succeeds,
}
use daq.Runner.Ports.{
  handle_port_state, handle_port_learn, handle_device_learn, is_system_port, remote_trigger,
  reap_stale_ports, terminate_all,
}
use daq.Runner.Targets.{target_set_error, target_set_complete}
use daq.Runner.Activation.{
  terminate_gateway_set, on_device_host, ip_notify, dhcp_ready_listener, Target,
}
use daq.Runner.Idle.{handle_system_idle}
use daq.Base.{
  ℕ, zero, suc, String, Bool, true, false, not, ◌&&◌, ◌||◌, Option, none, some, List, [], ◌∷◌,
  if◌then◌else◌, ◌==◌, nat_eq, string_eq, pair_eq,
}
use daq.Base.Dict.{get}
use daq.Base.Action.{
  Error, attribute, Action, raise, gets, try_except, skip, modify, assert, when, maybe, ◌>>=◌, ◌>>◌,
}

-- What `next_event` gives: an event, the loss of the connection, or another exception.
pub data Arrival : Type 0 where
  arrived : Event → Arrival
  lost : Arrival
  broken : Arrival

-- The request of a session, with whether it names an endpoint and whether the tap can be configured.
pub record Request : Type 0 where
  pub device_mac : String
  pub device_vlan : Option ℕ
  pub assigned_vlan : Option ℕ
  pub has_endpoint : Bool
  pub taps : Bool

-- `_on_session`
unfoldable pub on_session :
    Config → Surroundings → Action Runner (Unit {0}) → Request → Action Runner (Unit {0})
unfolding ◌>>=◌ on_registry on_device on_port remote_trigger
on_session config env drain request = do
  assert request.has_endpoint
  succeeds request.taps
  device ← on_registry (Devices.create_if_absent request.device_mac none none)
  p ← gets (λ r. (the_device device r).port)
  on_port p (λ i. record i { flapping_start = none })
  on_device device (λ d. record d { dhcp_mode = some DhcpMode.external })
  remote_trigger config env drain device request.device_vlan request.assigned_vlan

unfoldable pub end_session : Surroundings → ℕ → Action Runner (Unit {0})
unfolding ◌>>=◌ on_port
end_session env device = do
  flapping ← gets (λ r. truthy (the_port device r).flapping_start)
  p ← gets (λ r. (the_device device r).port)
  when (not flapping) (on_port p (λ i. record i { flapping_start = some env.now }))

-- `_on_session_end`
unfoldable pub on_session_end : Surroundings → Request → Action Runner (Unit {0})
unfolding ◌>>=◌ end_session
on_session_end env request = do
  known ← gets (λ r. get request.device_mac r.registry.devices)
  maybe known skip (end_session env)

-- `_module_heartbeat`: `answers` says for each device whether its time is over and a module starts.
unfoldable pub beat_all : (ℕ → Bool × Bool) → List ℕ → Action Runner (Unit {0})
unfolding ◌>>=◌ on_device_host
beat_all answers [] = skip
beat_all answers (device ∷ devices) =
    on_device_host device (Host.heartbeat (answers device).0 (answers device).1)
    >> beat_all answers devices

unfoldable pub module_heartbeat : (ℕ → Bool × Bool) → Action Runner (Unit {0})
unfolding ◌>>=◌ beat_all
module_heartbeat answers = do
  devices ← gets (λ r. get_triggered_devices r.registry)
  beat_all answers devices

-- What the event loop calls in a round, or a thread calls under the lock. `gateway_failed` is `ip_notify` with
-- an exception; the last two are what a host asks of the runner in the callbacks of its own streams.
pub data Called : Type 0 where
  switched : List Arrival → Called
  idled : Bool → (ℕ → Bool × Option (Bool × Bool)) → Called
  begun : Request → Called
  over : Request → Called
  notified : ℕ → Target → Called
  readied : ℕ → ℕ → Called
  gateway_failed target_failed target_ended : ℕ → Called

-- A round of the main loop, with what the surroundings answer in it. `on_error` is what the error handler of
-- the stream calls where the callback raises, if it has one: a notice with an exception for a gateway, the
-- failure of the target for a host.
pub record Round : Type 0 where
  pub env : Surroundings
  pub called : Called
  pub on_error : Option Called
  pub arrivals : ℕ → List Arrival
  pub depth : ℕ
  pub timeouts : ℕ → Option ℕ
  pub beats : ℕ → Bool × Bool

unfoldable pub keep_exception : Error → Action Runner (Unit {0})
keep_exception x = modify (λ r. record r { exception = true })

-- `vlans` says whether the run is triggered by vlans, `run_trigger` with its start and end.
module _ (config : Config) (vlans : Bool) where
  unfoldable pub process_learn :
      Surroundings → Action Runner (Unit {0}) → ℕ × ℕ × String × ℕ → Action Runner (Unit {0})
  unfolding ◌>>=◌ handle_device_learn handle_port_learn
  process_learn env drain (dpid, port, mac, vid) =
      when (not (dpid == 0) && not (port == 0) && not (vid == 0)) (
        if vlans
        then when (is_system_port dpid port) (handle_device_learn config env drain mac (some vid))
        else handle_port_learn config env drain dpid port mac)

  unfoldable pub process_other :
      Surroundings → Action Runner (Unit {0}) → Event → Action Runner (Unit {0})
  unfolding ◌>>=◌ process_learn
  process_other env drain event = maybe (as_port_learn (some event)) skip (process_learn env drain)

  unfoldable pub process_state :
      Surroundings → Action Runner (Unit {0}) → Event → ℕ × ℕ × Bool → Action Runner (Unit {0})
  unfolding ◌>>=◌ process_other handle_port_state
  process_state env drain event (dpid, port, active) =
      if dpid == 0 || port == 0
      then process_other env drain event
      else handle_port_state config env drain dpid port active

  -- `_process_faucet_event`; a change of the configuration is only logged.
  unfoldable pub process_faucet_event :
      Surroundings → Action Runner (Unit {0}) → Event → Action Runner (Unit {0})
  unfolding ◌>>=◌ process_state
  process_faucet_event env drain event =
      maybe (as_port_state (some event)) (process_other env drain event)
        (process_state env drain event)

  -- The call on `event` in a round of the loop of `_handle_faucet_events`, which raises if the object that
  -- reads the events is gone.
  unfoldable pub process_current :
      Surroundings → Action Runner (Unit {0}) → Bool → Option Event → Action Runner (Unit {0})
  unfolding ◌>>=◌ process_faucet_event
  process_current env drain connected none = skip
  process_current env drain connected (some event) =
      if connected then process_faucet_event env drain event else raise attribute

  -- `_handle_faucet_events`, until no event is left: a lost connection is made again, another exception
  -- shuts the runner down and drops the object that reads the events, after which the loop goes on with
  -- what `event` holds, the event of an earlier round.
  unfoldable pub handle_faucet_events :
      Surroundings
      → Action Runner (Unit {0})
      → Option Event
      → List Arrival
      → Action Runner (Unit {0})
  unfolding ◌>>=◌ process_current terminate_all
  handle_faucet_events env drain event [] = skip
  handle_faucet_events env drain event (arrived next ∷ rest) =
      process_current env drain true (some next) >> handle_faucet_events env drain (some next) rest
  handle_faucet_events env drain event (lost ∷ rest) = handle_faucet_events env drain event rest
  handle_faucet_events env drain event (broken ∷ rest) =
      terminate_all config env drain >> process_current env drain false event

  -- The queued switch events that the end of a target handles, which may end targets themselves:
  -- `arrivals` has what arrives at each depth.
  unfoldable pub drained : Surroundings → (ℕ → List Arrival) → ℕ → Action Runner (Unit {0})
  unfolding handle_faucet_events
  drained env arrivals zero = skip
  drained env arrivals (suc depth) =
      handle_faucet_events env (drained env arrivals depth) none (arrivals depth)

  unfoldable pub perform :
      Surroundings → Action Runner (Unit {0}) → Called → Action Runner (Unit {0})
  unfolding handle_faucet_events handle_system_idle on_session on_session_end ip_notify
      dhcp_ready_listener terminate_gateway_set target_set_error target_set_complete
  perform env drain (switched arrivals) = handle_faucet_events env drain none arrivals
  perform env drain (idled connected answers) =
      handle_system_idle config env drain connected answers
  perform env drain (begun request) = on_session config env drain request
  perform env drain (over request) = on_session_end env request
  perform env drain (notified size target) = ip_notify config env drain size target
  perform env drain (readied size device) = dhcp_ready_listener config size device
  perform env drain (gateway_failed g) = terminate_gateway_set config env drain g
  perform env drain (target_failed device) = target_set_error config env drain device
  perform env drain (target_ended device) = target_set_complete config env drain device

  -- The error handler of a stream; its own exception is logged.
  unfoldable pub handle_error :
      Surroundings → Action Runner (Unit {0}) → Option Called → Action Runner (Unit {0})
  unfolding perform
  handle_error env drain on_error =
      maybe on_error skip (λ called. try_except (perform env drain called) (λ x. skip))

  -- A round: the event loop logs the exception of what it calls, and the round goes on.
  unfoldable pub loop_round : Round → Action Runner (Unit {0})
  unfolding ◌>>=◌ perform drained handle_error reap_stale_ports module_heartbeat
  loop_round round =
      let drain = drained round.env round.arrivals round.depth in
      try_except (perform round.env drain round.called)
        (λ x. handle_error round.env drain round.on_error)
      >> reap_stale_ports config round.env drain round.timeouts
      >> module_heartbeat round.beats

  unfoldable pub loop_rounds : List Round → Action Runner (Unit {0})
  unfolding ◌>>=◌ loop_round
  loop_rounds [] = skip
  loop_rounds (round ∷ rounds) = loop_round round >> loop_rounds rounds

  -- `main_loop`: an exception outside the event loop's callbacks ends the loop; then all targets are terminated.
  unfoldable pub main_loop :
      Surroundings → Action Runner (Unit {0}) → List Round → Action Runner (Unit {0})
  unfolding ◌>>=◌ loop_rounds keep_exception terminate_all
  main_loop env drain rounds =
      try_except (loop_rounds rounds) keep_exception >> terminate_all config env drain
