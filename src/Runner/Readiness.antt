-- ===== src/Runner/Readiness.antt =====
-- daq/runner.py: whether a group of devices is ready to be triggered.
use daq.Base.{
  ℕ, ◌≡◌, refl, sym, ◌∙◌, Bool, true, false, List, [], ◌∷◌, nat_eq, string_eq, all, pair_eq,
}
use daq.Runner.{Runner, Config, all_trigger_ready}

all_same : (b : Bool) (x : ℕ) (xs : List ℕ) → all (λ _. b) (x ∷ xs) ≡ b
all_same true x [] = refl
all_same true x (y ∷ xs) = all_same true y xs
all_same false x xs = refl

-- Whether the ready devices of a group may be triggered is decided by the one device that gave rise to
-- the test: any two groups that are not empty get the same answer, whatever the other devices' hosts.
pub all_trigger_ready_one :
    (config : Config) (device first other : ℕ) (ready others : List ℕ) (r : Runner)
    → all_trigger_ready config device (first ∷ ready) r
      ≡ all_trigger_ready config device (other ∷ others) r
unfolding all_trigger_ready
all_trigger_ready_one config device first other ready others r =
    all_same _ first ready ∙ sym (all_same _ other others)
