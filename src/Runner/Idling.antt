-- ===== src/Runner/Idling.antt =====
-- daq/runner.py, _handle_system_idle_raw: an idle round does not turn tests on again.
use daq.Base.{ℕ, Bool, false, Option, List, [], ◌∷◌, nat_eq, string_eq}
use daq.Base.Action.{Action}
use daq.Base.Action.Preserves.{Preserves, Preserves-bind}
use daq.Runner.{
  target_set_consider, Runner, Config, Surroundings, idle_host, idle_target, idle_targets,
  trigger_targets, end_run, handle_system_idle, fail_targets, terminate_all,
}
use daq.Runner.Suppressed.{
  Stopped, stopped_rules, target_set_complete-Stopped, target_set_error-Stopped,
  target_set_trigger-Stopped, target_set_consider-Stopped,
}

module _ (config : Config) (env : Surroundings) (drain : Action Runner (Unit {0}))
    (kept : Preserves Stopped drain) where
  pub fail_targets-Stopped : (os : List ℕ) → Preserves Stopped (fail_targets config env drain os)
  unfolding fail_targets
  fail_targets-Stopped [] = search stopped_rules
  fail_targets-Stopped (o ∷ os) =
      Preserves-bind _ _ (target_set_error-Stopped config env drain kept o)
        (λ _. fail_targets-Stopped os)

  pub terminate_all-Stopped : Preserves Stopped (terminate_all config env drain)
  unfolding terminate_all
  terminate_all-Stopped = search (stopped_rules, fail_targets-Stopped) depth 10

  idle_host-Stopped :
      (answers : Bool × Option (Bool × Bool)) (device h : ℕ)
      → Preserves Stopped (idle_host config env drain answers device h)
  unfolding idle_host
  idle_host-Stopped answers device h =
      search (stopped_rules, target_set_complete-Stopped config env drain kept) depth 10

  idle_target-Stopped :
      (answers : Bool × Option (Bool × Bool)) (device : ℕ)
      → Preserves Stopped (idle_target config env drain answers device)
  unfolding idle_target
  idle_target-Stopped answers device =
      search (stopped_rules, idle_host-Stopped, target_set_error-Stopped config env drain kept)
        depth 10

  idle_targets-Stopped :
      (answers : ℕ → Bool × Option (Bool × Bool)) (os : List ℕ)
      → Preserves Stopped (idle_targets config env drain answers os)
  unfolding idle_targets
  idle_targets-Stopped answers [] = search stopped_rules
  idle_targets-Stopped answers (o ∷ os) =
      Preserves-bind _ _ (idle_target-Stopped (answers o) o) (λ _. idle_targets-Stopped answers os)

  trigger_targets-Stopped : (os : List ℕ) → Preserves Stopped (trigger_targets config env drain os)
  unfolding trigger_targets
  trigger_targets-Stopped [] = search stopped_rules
  trigger_targets-Stopped (o ∷ os) =
      Preserves-bind _ _ (target_set_trigger-Stopped config env drain kept false o)
        (λ _. trigger_targets-Stopped os)

  end_run-Stopped : (connected : Bool) → Preserves Stopped (end_run config env drain connected)
  unfolding end_run
  end_run-Stopped connected = search (stopped_rules, terminate_all-Stopped) depth 12

  consider-Stopped : Preserves Stopped (target_set_consider config env drain)
  consider-Stopped = target_set_consider-Stopped config env drain kept

  pub handle_system_idle-Stopped :
      (connected : Bool) (answers : ℕ → Bool × Option (Bool × Bool))
      → Preserves Stopped (handle_system_idle config env drain connected answers)
  unfolding handle_system_idle
  handle_system_idle-Stopped connected answers = Preserves-bind _ _ kept (λ _.
      search
        (
          stopped_rules, idle_targets-Stopped, trigger_targets-Stopped, consider-Stopped,
          end_run-Stopped,
        )
        depth 14)
