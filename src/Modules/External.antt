-- ===== src/Modules/External.antt =====
-- daq/test_modules/external_module.py (ExternalModule): a test that runs in a host of its own.
use daq.Base.{
  ℕ, ◌+◌, Bool, true, false, Option, none, some, List, [], ◌∷◌, ◌++◌, if◌then◌else◌, ◌==◌, nat_eq,
  string_eq, pair_eq,
}
use daq.Base.Action.{
  Error, attribute, raised, ok, err, Action, pure, raise, gets, try_except, skip, modify, assert,
  maybe, ◌>>=◌, ◌>>◌,
}

-- What the callback is given: the return code and the exception; the code is -1 for an exception.
pub data Outcome : Type 0 where
  returned : Option ℕ → Outcome
  failed : Error → Outcome
  errored : Error → Outcome

-- `host`, `pipe` and `log` are None or the one object that `start` makes. `registered`, `running` and
-- `monitored` are the other side of the calls: whether the runner has the host, whether the host runs,
-- and whether the runner watches its stream.
pub record Module : Type 0 where
  pub host : Bool
  pub pipe : Bool
  pub log : Bool
  pub registered : Bool
  pub running : Bool
  pub monitored : Bool
  pub has_finish_hook : Bool
  pub hooks_run : ℕ
  pub outcomes : List Outcome

-- Which calls go through, the failures that the configuration induces, and the return code of the host.
pub record Answers : Type 0 where
  pub adds_host : Bool
  pub activates : Bool
  pub opens_log : Bool
  pub induces_initialize : Bool
  pub monitors : Bool
  pub hook_ends : Bool
  pub removes_host : Bool
  pub ends_host : Bool
  pub calls_back : Bool
  pub closes_log : Bool
  pub induces_finalize : Bool
  pub return_code : Option ℕ
  -- whether the test is called `fail`
  pub inverts : Bool

unfoldable pub fresh : Bool → Module
fresh has_finish_hook = record {
  host = false;
  pipe = false;
  log = false;
  registered = false;
  running = false;
  monitored = false;
  has_finish_hook = has_finish_hook;
  hooks_run = 0;
  outcomes = [];
}

unfoldable pub callback : Outcome → Module → Module
callback outcome m = record m { outcomes = m.outcomes ++ outcome ∷ [] }

-- `not return_code`
unfoldable pub invert : Option ℕ → Option ℕ
invert none = some 1
invert (some code) = if code == 0 then some 1 else some 0

-- `if self.pipe`: forget the stream.
unfoldable pub forget : Module → Module
forget m = if m.pipe then record m { monitored = false; pipe = false } else m

module _ (answers : Answers) where
  -- `runner.remove_host`
  unfoldable pub remove_host : Action Module (Unit {0})
  unfolding ◌>>=◌
  remove_host =
      (if answers.removes_host then skip else raise raised)
      >> modify (λ m. record m { registered = false })

  -- `host.terminate`
  unfoldable pub end_host : Action Module (Unit {0})
  unfolding ◌>>=◌
  end_host =
      (if answers.ends_host then skip else raise raised)
      >> modify (λ m. record m { running = false })

  -- The callback is told the outcome, and may raise.
  unfoldable pub call_back : Outcome → Action Module (Unit {0})
  unfolding callback ◌>>=◌
  call_back outcome =
      modify (callback outcome) >> (if answers.calls_back then skip else raise raised)

  -- The second `try` of `start`.
  unfoldable pub launch : Action Module (Unit {0})
  unfolding ◌>>=◌
  launch =
      modify (λ m. record m { running = true })
      >> (if answers.activates then skip else raise raised)
      >> (if answers.opens_log then skip else raise raised)
      >> modify (λ m. record m { log = true })
      >> (if answers.induces_initialize then raise raised else skip)
      >> (if answers.monitors then skip else raise raised)
      >> modify (λ m. record m { monitored = true; pipe = true })

  -- Its handler.
  unfoldable pub clean_up : Error → Action Module (Unit {0})
  unfolding forget remove_host end_host ◌>>=◌
  clean_up x =
      end_host >> remove_host >> modify (λ m. record m { host = false }) >> modify forget >> raise x

  unfoldable pub start : Action Module (Unit {0})
  unfolding launch clean_up ◌>>=◌
  start =
      (if answers.adds_host then skip else raise raised)
      >> modify (λ m. record m { registered = true; host = true })
      >> try_except launch clean_up

  unfoldable pub run_hook : Action Module (Unit {0})
  run_hook m =
      if m.has_finish_hook
      then (
        if answers.hook_ends then ok tt else err raised,
        record m { hooks_run = m.hooks_run + 1 },
      )
      else (ok tt, m)

  unfoldable pub close_log : Action Module (Unit {0})
  close_log m =
      if m.log
      then if answers.closes_log then (ok tt, record m { log = false }) else (err raised, m)
      else (err attribute, m)

  unfoldable pub finalize : Action Module (Option ℕ)
  unfolding run_hook forget remove_host end_host close_log invert ◌>>=◌
  finalize = gets (λ m. m.host) >>= λ host.
      assert host
      >> run_hook
      >> remove_host
      >> modify forget
      >> end_host
      >> modify (λ m. record m { host = false })
      >> close_log
      >> (if answers.induces_finalize then raise raised else skip)
      >> pure (if answers.inverts then invert answers.return_code else answers.return_code)

  unfoldable pub terminate : Action Module (Option ℕ)
  unfolding finalize
  terminate = finalize

  -- `_error`
  unfoldable pub on_error : Error → Action Module (Unit {0})
  unfolding finalize call_back ◌>>=◌
  on_error x = finalize >>= λ code. maybe code skip (λ _. call_back (errored x))

  -- `_complete`; the stream monitor forgets a stream that hangs up before it calls.
  unfoldable pub finish : Action Module Outcome
  unfolding finalize ◌>>=◌
  finish = gets (λ m. m.pipe) >>= λ pipe.
      assert pipe
      >> modify (λ m. record m { pipe = false })
      >> (finalize >>= λ code. pure (returned code))

  unfoldable pub complete : Action Module (Unit {0})
  unfolding finish call_back ◌>>=◌
  complete =
      modify (λ m. record m { monitored = false })
      >> (try_except finish (λ x. pure (failed x)) >>= λ outcome. call_back outcome)
