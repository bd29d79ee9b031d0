-- ===== src/Runner/Looping.antt =====
-- daq/runner.py, main_loop: the whole run does not turn tests on again.
use daq.Runner.Handled.{
  handle_faucet_events-Stopped, handle_error-Stopped, perform-Stopped, keep_exception-Stopped,
  module_heartbeat-Stopped, reap_stale_ports-Stopped,
}
use daq.Runner.{
  Runner, Config, Surroundings, Arrival, drained, Round, loop_round, loop_rounds, main_loop,
}
use daq.Runner.Suppressed.{Stopped, stopped_rules}
use daq.Runner.Idling.{terminate_all-Stopped}
use daq.Base.{ℕ, zero, suc, Bool, none, List, [], ◌∷◌, nat_eq, string_eq, pair_eq}
use daq.Base.Action.Preserves.{Preserves, Preserves-bind, Preserves-try}

module _ (config : Config) (vlans : Bool) where
  drained-Stopped :
      (env : Surroundings) (arrivals : ℕ → List Arrival) (depth : ℕ)
      → Preserves Stopped (drained config vlans env arrivals depth)
  unfolding drained
  drained-Stopped env arrivals zero = search stopped_rules
  drained-Stopped env arrivals (suc depth) =
      handle_faucet_events-Stopped config env (drained config vlans env arrivals depth)
        (drained-Stopped env arrivals depth) vlans none (arrivals depth)

  loop_round-Stopped : (round : Round) → Preserves Stopped (loop_round config vlans round)
  unfolding loop_round
  loop_round-Stopped round =
      let drain = drained config vlans round.env round.arrivals round.depth in
      let kept = drained-Stopped round.env round.arrivals round.depth in
      Preserves-bind _ _
        (Preserves-bind _ _
          (Preserves-try _ _ (perform-Stopped config round.env drain kept vlans round.called)
            (λ _. handle_error-Stopped config round.env drain kept vlans round.on_error))
          (λ _. reap_stale_ports-Stopped config round.env drain kept round.timeouts))
        (λ _. module_heartbeat-Stopped round.beats)

  loop_rounds-Stopped : (rounds : List Round) → Preserves Stopped (loop_rounds config vlans rounds)
  unfolding loop_rounds
  loop_rounds-Stopped [] = search stopped_rules
  loop_rounds-Stopped (round ∷ rounds) =
      Preserves-bind _ _ (loop_round-Stopped round) (λ _. loop_rounds-Stopped rounds)

  -- Once tests are suppressed they stay so until `main_loop` ends, whatever switch events, idle rounds,
  -- sessions, notices and failures or ends of targets and gateways the rounds of the loop bring, whatever
  -- switch events the end of a target handles on the way and however deep, also where an exception of a
  -- callback goes to its error handler and the loop goes on, and where another exception ends the loop.
  pub main_loop-Stopped :
      (env : Surroundings) (arrivals : ℕ → List Arrival) (depth : ℕ) (rounds : List Round)
      (r : Runner)
      → Stopped r
      → Stopped (main_loop config vlans env (drained config vlans env arrivals depth) rounds r).1
  unfolding main_loop
  main_loop-Stopped env arrivals depth rounds r h =
      let drain = drained config vlans env arrivals depth in
      let kept : Preserves Stopped (main_loop config vlans env drain rounds) =
        Preserves-bind _ _ (Preserves-try _ _ (loop_rounds-Stopped rounds) keep_exception-Stopped)
          (λ _. terminate_all-Stopped config env drain (drained-Stopped env arrivals depth)) in
      kept.from r h
