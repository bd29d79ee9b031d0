-- ===== src/Runner/Idle.antt =====
-- daq/runner.py, _handle_system_idle_raw: a round over all devices while the event loop is idle.
use daq.Base.{
  ℕ, Bool, false, not, ◌&&◌, Option, List, [], ◌∷◌, if◌then◌else◌, ◌==◌, nat_eq, string_eq,
  nonempty,
}
use daq.Base.Dict.{values}
use daq.Base.Action.{attribute, Action, gets, or_raise, try_except, skip, modify, when, ◌>>=◌, ◌>>◌}
use daq.Devices.{get_triggered_devices}
use daq.Host
use daq.Runner.State.{Runner, Config, Surroundings, on_host_object, the_device}
use daq.Runner.Targets.{
  target_set_complete, target_set_error, target_set_trigger, target_set_consider,
}
use daq.Runner.Ports.{terminate_all}

-- A host that runs handles the idle state; `answers` says whether a test module starts and what the
-- pings of the base tests answer. The target of one that does not run is completed.
unfoldable pub idle_host :
    Config
    → Surroundings
    → Action Runner (Unit {0})
    → Bool × Option (Bool × Bool)
    → ℕ
    → ℕ
    → Action Runner (Unit {0})
unfolding ◌>>=◌ on_host_object
idle_host config env drain answers device h = do
  running ← gets (λ r. Host.is_running (r.host_at h).host)
  if running
      then on_host_object h (Host.idle_handler (config.mode_of device) answers.0 answers.1)
      else target_set_complete config env drain device

unfoldable pub idle_target :
    Config
    → Surroundings
    → Action Runner (Unit {0})
    → Bool × Option (Bool × Bool)
    → ℕ
    → Action Runner (Unit {0})
unfolding ◌>>=◌ idle_host
idle_target config env drain answers device =
    try_except
      (do
        host ← gets (λ r. (the_device device r).host)
        h ← or_raise host attribute
        idle_host config env drain answers device h)
      (λ x. target_set_error config env drain device)

unfoldable pub idle_targets :
    Config
    → Surroundings
    → Action Runner (Unit {0})
    → (ℕ → Bool × Option (Bool × Bool))
    → List ℕ
    → Action Runner (Unit {0})
unfolding ◌>>=◌ idle_target
idle_targets config env drain answers [] = skip
idle_targets config env drain answers (o ∷ os) =
    idle_target config env drain (answers o) o >> idle_targets config env drain answers os

unfoldable pub trigger_targets :
    Config → Surroundings → Action Runner (Unit {0}) → List ℕ → Action Runner (Unit {0})
unfolding ◌>>=◌
trigger_targets config env drain [] = skip
trigger_targets config env drain (o ∷ os) =
    target_set_trigger config env drain false o >> trigger_targets config env drain os

-- With no target left and tests suppressed the run ends, unless results linger. `connected` says whether
-- there are switch events.
unfoldable pub end_run :
    Config → Surroundings → Action Runner (Unit {0}) → Bool → Action Runner (Unit {0})
unfolding ◌>>=◌ terminate_all
end_run config env drain connected = do
  busy ← gets (λ r. nonempty (get_triggered_devices r.registry))
  run_tests ← gets (λ r. r.run_tests)
  when (not busy && not run_tests) (do
    linger ← gets (λ r. r.linger_exit)
    when (connected && linger == 0) (terminate_all config env drain)
    when (linger == 1) (modify (λ r. record r { linger_exit = 2 })))

-- `_handle_system_idle_raw`, which first drains the switch events.
unfoldable pub handle_system_idle :
    Config
    → Surroundings
    → Action Runner (Unit {0})
    → Bool
    → (ℕ → Bool × Option (Bool × Bool))
    → Action Runner (Unit {0})
unfolding ◌>>=◌ idle_targets trigger_targets end_run
handle_system_idle config env drain connected answers = do
  drain
  triggered ← gets (λ r. get_triggered_devices r.registry)
  idle_targets config env drain answers triggered
  devices ← gets (λ r. values r.registry.devices)
  trigger_targets config env drain devices
  target_set_consider config env drain
  end_run config env drain connected
