-- ===== src/Dot1x/Silent.antt =====
-- subset/dot1x/authenticator/authenticator.py: a device that no longer answers.
use daq.Dot1x.Machine.{AuthStateMachine, Authenticator}
use daq.Dot1x.Authenticator.{periodic_task}
use daq.Base.{
  ℕ, ◌+◌, ◌≤◌, ◌<◌, String, ◌≡◌, refl, true, false, some, List, [], ◌∷◌, arith, is_some, nat_eq,
  string_eq, beq_self, length, pair_eq,
}
use daq.Base.Dict.{get, get-insert}

-- The state after heartbeats at the given times.
abbrev pub heartbeats : List ℕ → Authenticator → Authenticator
heartbeats [] a = a
heartbeats (now ∷ times) a = heartbeats times (periodic_task now a).1

-- Each time is later than the timeout that the time before it sets.
abbrev pub AreLate : ℕ → ℕ → List ℕ → Type 0
AreLate idle timeout [] = Unit
AreLate idle timeout (now ∷ times) = (timeout < now) × AreLate idle (now + idle) times

-- The authenticator talks to one device, which has a timeout and a number of retries behind it.
pub record IsWaiting (m : AuthStateMachine) (timeout retries : ℕ) (a : Authenticator) : Type 0 where
  pub alone : a.state_machines ≡ (m.src_mac, m) ∷ []
  pub runs : a.timer_runs ≡ true
  pub timed : m.current_timeout ≡ some timeout
  pub counted : m.current_retries ≡ some retries
  pub retried : is_some m.retry ≡ true

retry_round :
    (now timeout retries : ℕ) (m : AuthStateMachine) (a : Authenticator)
    → IsWaiting m timeout retries a
    → timeout < now
    → retries < m.max_retry_count
    → IsWaiting
        (record m {
          current_retries = some (retries + 1);
          current_timeout = some (now + m.idle_time);
        })
        (now + m.idle_time)
        (retries + 1)
        (periodic_task now a).1
unfolding periodic_task
retry_round now timeout retries m a w late more = record {
  alone = ground (arith, beq_self m.src_mac, w.alone, w.runs, w.timed, w.counted, w.retried);
  runs = ground (arith, beq_self m.src_mac, w.alone, w.runs, w.timed, w.counted, w.retried);
  timed = refl;
  counted = refl;
  retried = w.retried;
}

-- What a test that has failed leaves: no state machine, a result, and no heartbeat.
abbrev pub IsFailed : String → Authenticator → Type 0
IsFailed mac a = (a.state_machines ≡ []) × (get mac a.results ≡ some false) × (a.timer_runs ≡ false)

last_round :
    (now timeout retries : ℕ) (m : AuthStateMachine) (a : Authenticator)
    → IsWaiting m timeout retries a
    → timeout < now
    → m.max_retry_count ≤ retries
    → IsFailed m.src_mac (periodic_task now a).1
unfolding periodic_task
last_round now timeout retries m a w late full = (
  ground (arith, beq_self m.src_mac, w.alone, w.runs, w.timed, w.counted),
  ground (
    arith,
    beq_self m.src_mac,
    w.alone,
    w.runs,
    w.timed,
    w.counted,
    get-insert m.src_mac m.src_mac false a.results,
  ),
  ground (arith, beq_self m.src_mac, w.alone, w.runs, w.timed, w.counted),
)

-- A device that no longer answers fails its test. If the authenticator talks to one device only, which has
-- a timeout and some retries behind it, then after as many heartbeats as retries are left and one more,
-- each later than the timeout that is set, there is no state machine left, the result of the device is a
-- failure and the heartbeat is off.
pub heartbeats-IsFailed :
    (times : List ℕ) (timeout retries : ℕ) (m : AuthStateMachine) (a : Authenticator)
    → IsWaiting m timeout retries a
    → AreLate m.idle_time timeout times
    → length times + retries ≡ m.max_retry_count + 1
    → retries ≤ m.max_retry_count
    → IsFailed m.src_mac (heartbeats times a)
heartbeats-IsFailed [] timeout retries m a w late count most = absurd (omega arith)
heartbeats-IsFailed (now ∷ []) timeout retries m a w late count most =
    last_round now timeout retries m a w late.0 (omega arith)
heartbeats-IsFailed (now ∷ next ∷ times) timeout retries m a w late count most =
    heartbeats-IsFailed (next ∷ times) (now + m.idle_time) (retries + 1)
      (record m {
        current_retries = some (retries + 1);
        current_timeout = some (now + m.idle_time);
      })
      (periodic_task now a).1 (retry_round now timeout retries m a w late.0 (omega arith)) late.1
      (omega arith) (omega arith)
