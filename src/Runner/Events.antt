-- ===== src/Runner/Events.antt =====
-- daq/runner.py: sequences of target set calls, and what the suppression of tests stops.
use daq.Base.{ℕ, ◌≡◌, Bool, true, Option, some, List, [], ◌∷◌, arith, ltb, nat_eq, string_eq}
use daq.Base.Action.{Action, skip, ◌>>=◌, ◌>>◌}
use daq.Base.Action.Preserves.{Preserves}
use daq.Runner.Idling.{handle_system_idle-Stopped}
use daq.Runner.{
  handle_system_idle, Runner, Config, Surroundings, target_set_complete, target_set_error,
  target_set_trigger, target_set_consider, target_set_activate, number_triggered, pop_target,
}
use daq.Runner.Suppressed.{
  Stopped, target_set_complete-Stopped, target_set_error-Stopped, target_set_trigger-Stopped,
  target_set_consider-Stopped,
}

pub data Event : Type 0 where
  triggered : (remote : Bool) (device : ℕ) → Event
  considered : Event
  failing : (device : ℕ) → Event
  completed : (device : ℕ) → Event
  idled : (connected : Bool) (answers : ℕ → Bool × Option (Bool × Bool)) → Event

module _ (config : Config) (drain : Action Runner (Unit {0})) where
  -- The runner after a call; an exception goes to the caller.
  unfoldable pub step : Surroundings × Event → Runner → Runner
  step (env, triggered remote device) r = (target_set_trigger config env drain remote device r).1
  step (env, considered) r = (target_set_consider config env drain r).1
  step (env, failing device) r = (target_set_error config env drain device r).1
  step (env, completed device) r = (target_set_complete config env drain device r).1
  step (env, idled connected answers) r =
      (handle_system_idle config env drain connected answers r).1

  unfoldable pub run : List (Surroundings × Event) → Runner → Runner
  run [] r = r
  run (e ∷ es) r = run es (step e r)

  module _ (kept : Preserves Stopped drain) where
    step-Stopped : (e : Surroundings × Event) (r : Runner) → Stopped r → Stopped (step e r)
    unfolding step
    step-Stopped (env, triggered remote device) r h =
        (target_set_trigger-Stopped config env drain kept remote device).from r h
    step-Stopped (env, considered) r h =
        (target_set_consider-Stopped config env drain kept).from r h
    step-Stopped (env, failing device) r h =
        (target_set_error-Stopped config env drain kept device).from r h
    step-Stopped (env, completed device) r h =
        (target_set_complete-Stopped config env drain kept device).from r h
    step-Stopped (env, idled connected answers) r h =
        (handle_system_idle-Stopped config env drain kept connected answers).from r h

    -- Once tests are suppressed they stay so, whatever targets are triggered, considered, failed or
    -- completed and whatever idle rounds are made, in whatever order, if the events that are handled on
    -- the way do not allow tests again.
    pub run-Stopped :
        (es : List (Surroundings × Event)) (r : Runner) → Stopped r → Stopped (run es r)
    unfolding run
    run-Stopped [] r h = h
    run-Stopped (e ∷ es) r h = run-Stopped es (step e r) (step-Stopped e r h)

  then_skip : (m : Action Runner Bool) (r : Runner) → ((do m; skip) r).1 ≡ (m r).1
  unfolding ◌>>=◌
  then_skip m r = ground arith

  -- The suppression of tests does not reach the queue: if there are fewer hosts than the limit, the first
  -- queued device is activated although tests are suppressed.
  pub target_set_consider_suppressed :
      (env : Surroundings) (r : Runner) (device : ℕ) (devices : List ℕ) (n : ℕ)
      → config.max_hosts ≡ some n
      → ltb (number_triggered r) n ≡ true
      → r.target_set_queue ≡ device ∷ devices
      → Stopped r
      → (target_set_consider config env drain r).1
        ≡ (target_set_activate config env drain device (record r { target_set_queue = devices })).1
  unfolding target_set_consider pop_target ◌>>=◌
  target_set_consider_suppressed env r device devices n limit room queue stopped =
      rw (limit, room, queue)
        (then_skip (target_set_activate config env drain device)
          (record r { target_set_queue = devices }))
