-- ===== src/Modules/IpAddr.antt =====
-- daq/test_modules/ipaddr_module.py (IpAddrModule): the tests of how a device gets its address.
use daq.Base.{
  ℕ, ◌+◌, ◌*◌, String, Bool, true, false, Option, none, some, List, [], ◌∷◌, ◌++◌, leb,
  if◌then◌else◌, ◌==◌, nat_eq, string_eq, nonempty, range, pair_eq,
}
use daq.Base.Action.{
  Error, raised, ok, err, Action, raise, gets, try_except, skip, modify, when, maybe, ◌>>=◌, ◌>>◌,
}

-- `tests`, by the names of the methods.
pub data Test : Type 0 where
  dhcp_port_toggle_test multi_subnet_test ip_change_test dhcp_change_test analyze : Test

-- `start`, `end` and `prefix_length`.
pub record Range : Type 0 where
  pub first : String
  pub last : String
  pub prefix_length : ℕ

-- The methods that `_ip_callback` may be.
pub data IpCallback : Type 0 where
  next_test_callback multi_subnet_callback : IpCallback

-- The calls of other objects, in their order.
pub data Call : Type 0 where
  connect_port : Bool → Call
  change_dhcp_range : Range → Call
  request_new_ip docker_start docker_terminate ping_test : Call
  callback : Option Error → Call

pub record Module : Type 0 where
  pub tests : List Test
  pub test_dhcp_ranges : List Range
  pub ip_callback : Option IpCallback
  -- None and 0 are the same
  pub lease_time_seconds : ℕ
  pub timeout : Option ℕ
  pub force_terminated : Bool
  -- whether the docker host has a start time
  pub docker_started : Bool
  pub calls : List Call

-- What the other objects answer: whether the port can be switched, and whether a call goes through.
pub record Answers : Type 0 where
  pub connects : Bool
  pub changes_range : Bool
  pub requests_ip : Bool
  pub docker_starts : Bool
  pub docker_ends : Bool
  pub now : ℕ

unfoldable pub all_tests : List Test
all_tests =
    dhcp_port_toggle_test ∷ multi_subnet_test ∷ ip_change_test ∷ dhcp_change_test ∷ analyze ∷ []

-- A value of seconds, with its unit: `LEASE_TIME_UNITS_CONVERTER`.
unfoldable pub unit_seconds : String → Option ℕ
unit_seconds unit =
    if unit == "s"
    then some 1
    else if unit == "m"
    then some 60
    else if unit == "h"
    then some 3600
    else if unit == "d"
    then some 86400
    else none

-- `_get_lease_time` of a whole number and a unit.
unfoldable pub get_lease_time : Option (ℕ × String) → ℕ
unfolding unit_seconds
get_lease_time none = 0
get_lease_time (some (value, unit)) = elim (unit_seconds unit) [
  | none ↦ 0
  | some seconds ↦ value * seconds
]

-- `__init__` and `start`, for a device whose DHCP mode is not external.
unfoldable pub started : List Range → Option (ℕ × String) → Module
unfolding all_tests get_lease_time
started ranges lease_time = record {
  tests = all_tests;
  test_dhcp_ranges = ranges;
  ip_callback = some next_test_callback;
  lease_time_seconds = get_lease_time lease_time;
  timeout = none;
  force_terminated = false;
  docker_started = false;
  calls = [];
}

unfoldable pub note : Call → Module → Module
note call m = record m { calls = m.calls ++ call ∷ [] }

unfoldable pub set_ip_callback : Option IpCallback → Module → Module
set_ip_callback ip_callback m = record m { ip_callback = ip_callback }

unfoldable pub set_timeout : ℕ → Module → Module
set_timeout now m =
    if m.lease_time_seconds == 0
    then m
    else record m { timeout = some (now + m.lease_time_seconds) }

-- With the exception, if there is one.
unfoldable pub finalize : Option Error → Module → Module
unfolding note set_ip_callback
finalize exception m =
    let n = set_ip_callback none m in if n.force_terminated then n else note (callback exception) n

-- A call that may raise.
unfoldable pub try_call : Call → Bool → Action Module (Unit {0})
unfolding note
try_call call goes_through m = (if goes_through then ok tt else err raised, note call m)

module _ (answers : Answers) where
  unfoldable pub port_toggle : Action Module (Unit {0})
  unfolding set_timeout note set_ip_callback ◌>>=◌
  port_toggle =
      modify (set_timeout answers.now)
      >> modify (note (connect_port false))
      >> when answers.connects
          (modify (note (connect_port true)) >> modify (set_ip_callback (some next_test_callback)))

  -- With `next` for `_next_test`.
  unfoldable pub multi_subnet : Action Module (Unit {0}) → Action Module (Unit {0})
  unfolding set_timeout try_call set_ip_callback ◌>>=◌
  multi_subnet next =
      modify (set_timeout answers.now)
      >> (gets (λ m. m.test_dhcp_ranges) >>= λ ranges. elim ranges [
        | [] ↦ next
        | range ∷ rest ↦
            modify (λ m. record m { test_dhcp_ranges = rest })
            >> try_call (change_dhcp_range range) answers.changes_range
            >> modify (
                set_ip_callback
                  (some (if nonempty rest then multi_subnet_callback else next_test_callback)))
      ])

  unfoldable pub ip_change : Action Module (Unit {0})
  unfolding set_timeout try_call set_ip_callback ◌>>=◌
  ip_change =
      modify (set_timeout answers.now)
      >> try_call request_new_ip answers.requests_ip
      >> modify (set_ip_callback (some next_test_callback))

  unfoldable pub dhcp_change : Action Module (Unit {0})
  unfolding set_timeout note try_call set_ip_callback ◌>>=◌
  dhcp_change =
      modify (set_timeout answers.now)
      >> modify (note (connect_port false))
      >> when answers.connects (
          try_call request_new_ip answers.requests_ip
          >> modify (note (connect_port true))
          >> modify (set_ip_callback (some next_test_callback)))

  -- The docker host notes its start time before it may raise.
  unfoldable pub analysis : Action Module (Unit {0})
  unfolding set_timeout try_call set_ip_callback ◌>>=◌
  analysis =
      modify (set_timeout answers.now)
      >> modify (set_ip_callback none)
      >> modify (λ m. record m { docker_started = true })
      >> try_call docker_start answers.docker_starts

  -- `_next_test` with the tests that are left, which `pop(0)` of an empty list refuses.
  unfoldable pub next_tests : List Test → Action Module (Unit {0})
  unfolding port_toggle multi_subnet ip_change dhcp_change analysis finalize ◌>>=◌
  next_tests [] =
      try_except (modify (λ m. record m { timeout = none }) >> raise raised)
        (λ x. modify (finalize (some x)))
  next_tests (test ∷ tests) =
      let next = next_tests tests in
      try_except
        (modify (λ m. record m { timeout = none; tests = tests }) >> elim test [
          | dhcp_port_toggle_test ↦ port_toggle
          | multi_subnet_test ↦ multi_subnet next
          | ip_change_test ↦ ip_change
          | dhcp_change_test ↦ dhcp_change
          | analyze ↦ analysis
        ])
        (λ x. modify (finalize (some x)))

  unfoldable pub next_test : Action Module (Unit {0})
  unfolding next_tests ◌>>=◌
  next_test = gets (λ m. m.tests) >>= λ tests. next_tests tests

  unfoldable pub terminate : Action Module (Unit {0})
  unfolding try_call finalize ◌>>=◌
  terminate =
      modify (λ m. record m { force_terminated = true })
      >> (gets (λ m. m.docker_started) >>= λ docker_started.
          when docker_started (try_call docker_terminate answers.docker_ends))
      >> modify (finalize none)

  unfoldable pub run_callback : IpCallback → Action Module (Unit {0})
  unfolding next_test multi_subnet
  run_callback next_test_callback = next_test
  run_callback multi_subnet_callback = multi_subnet next_test

  unfoldable pub ip_listener : String → Action Module (Unit {0})
  unfolding note run_callback ◌>>=◌
  ip_listener state = when (state == "done") (
      modify (note ping_test)
      >> (gets (λ m. m.ip_callback) >>= λ ip_callback. maybe ip_callback skip run_callback))

  -- `self.tests[-1:]`
  abbrev last_test : List Test → List Test
  last_test [] = []
  last_test (test ∷ []) = test ∷ []
  last_test (_ ∷ test ∷ tests) = last_test (test ∷ tests)

  unfoldable pub expire : Action Module (Unit {0})
  unfolding note terminate next_test ◌>>=◌
  expire = gets (λ m. m.docker_started) >>= λ docker_started.
      (if docker_started
        then terminate >> modify (note (callback (some raised)))
        else modify (λ m. record m { tests = last_test m.tests }) >> next_test)

  unfoldable pub heartbeat : Action Module (Unit {0})
  unfolding expire ◌>>=◌
  heartbeat = gets (λ m. m.timeout) >>= λ timeout.
      maybe timeout skip (λ time. when (leb time answers.now) expire)
