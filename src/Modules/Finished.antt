-- ===== src/Modules/Finished.antt =====
-- daq/test_modules/external_module.py: what is left behind, and what the callback is told.
use daq.Base.{
  ℕ, ◌≡◌, Bool, true, false, not, ◌&&◌, ◌||◌, Option, none, some, [], ◌∷◌, ◌++◌, arith,
  if◌then◌else◌, ◌==◌, nat_eq, string_eq, pair_eq,
}
use daq.Base.Action.{raised, ok, err}
use daq.Modules.External.{returned, failed, Module, Answers, complete}

-- The host runs, and its stream is watched.
abbrev pub IsRunning : Module → Type 0
IsRunning m =
    (m.host ≡ true)
    × (m.registered ≡ true)
    × (m.running ≡ true)
    × (m.pipe ≡ true)
    × (m.monitored ≡ true)
    × (m.log ≡ true)

module _ (answers : Answers) (m : Module) where
  -- `_finalize` gets past the finish hook, the removal of the host from the runner, and its end.
  abbrev pub is_hooked : Bool
  is_hooked = not m.has_finish_hook || answers.hook_ends

  abbrev pub is_removed : Bool
  is_removed = is_hooked && answers.removes_host

  abbrev pub is_ended : Bool
  is_ended = is_removed && answers.ends_host

abbrev pub told_code : Answers → Option ℕ
told_code answers =
    if answers.inverts
    then (elim answers.return_code [
      | none ↦ some 1
      | some code ↦ if code == 0 then some 1 else some 0
    ])
    else answers.return_code

-- A module whose host ends calls back exactly once. If the host runs and its stream is watched, the call
-- adds one outcome and raises only if the callback does. The outcome is the return code, for the test `fail`
-- 1 instead of a missing code or 0 and 0 instead of another one, if the finish hook, the removal of the host
-- from the runner, its end and the closing of the log go through and no failure is induced, and that failure
-- otherwise. The stream is forgotten in any case. The host is removed from the runner exactly if the hook
-- and the removal go through, and it has ended and is forgotten exactly if its end goes through as well.
pub complete_outcome :
    (answers : Answers) (m : Module)
    → IsRunning m
    → let (result, n) = complete answers m in
      (result ≡ (if answers.calls_back then ok tt else err raised))
      × (n.outcomes
          ≡ m.outcomes
            ++ (if is_ended answers m && (answers.closes_log && not answers.induces_finalize)
                then returned (told_code answers)
                else failed raised)
              ∷ [])
      × (n.pipe ≡ false)
      × (n.monitored ≡ false)
      × (n.registered ≡ not (is_removed answers m))
      × (n.running ≡ not (is_ended answers m))
      × (n.host ≡ not (is_ended answers m))
      × (n.log ≡ not (is_ended answers m && answers.closes_log))
unfolding complete
complete_outcome answers m running = ground arith
