-- ===== src/Modules/Toggled.antt =====
-- daq/test_modules/ipaddr_module.py: the order of the tests, if every call goes through.
use daq.Base.{
  ℕ, zero, suc, ◌+◌, String, ◌≡◌, refl, ap, ◌∙◌, true, false, Option, none, some, List, [], ◌∷◌,
  ◌++◌, arith, if◌then◌else◌, nat_eq, string_eq, length, nonempty, range, pair_eq,
}
use daq.Modules.IpAddr.{
  all_tests, Test, multi_subnet_test, ip_change_test, dhcp_change_test, analyze, Range, IpCallback,
  next_test_callback, multi_subnet_callback, Call, connect_port, change_dhcp_range, request_new_ip,
  docker_start, ping_test, Module, Answers, started, ip_listener,
}

-- Every call goes through.
pub record IsGood (answers : Answers) : Type 0 where
  pub connects : answers.connects ≡ true
  pub changes_range : answers.changes_range ≡ true
  pub requests_ip : answers.requests_ip ≡ true
  pub docker_starts : answers.docker_starts ≡ true

abbrev IsAt : List Test → List Range → Option IpCallback → List Call → Module → Type 0
IsAt tests ranges ip_callback calls m =
    (m.tests ≡ tests)
    × (m.test_dhcp_ranges ≡ ranges)
    × (m.ip_callback ≡ ip_callback)
    × (m.calls ≡ calls)

suc-add : (n : ℕ) → suc n + 1 ≡ suc (n + 1)
suc-add n = omega arith

module _ (answers : Answers) where
  abbrev notify : Module → Module
  notify m = (ip_listener answers "done" m).1

  -- The state after some notifications that the device has its address.
  abbrev pub notified : ℕ → Module → Module
  notified zero m = m
  notified (suc n) m = notified n (notify m)

  notified_last : (n : ℕ) (m : Module) → notified (n + 1) m ≡ notify (notified n m)
  notified_last zero m = refl
  notified_last (suc n) m = ap (λ k. notified k m) (suc-add n) ∙ notified_last n (notify m)

module _ (answers : Answers) (good : IsGood answers) where
  IsAt-toggle :
      (ranges : List Range) (m : Module)
      → IsAt all_tests ranges (some next_test_callback) [] m
      → IsAt
          (multi_subnet_test ∷ ip_change_test ∷ dhcp_change_test ∷ analyze ∷ [])
          ranges
          (some next_test_callback)
          (ping_test ∷ connect_port false ∷ connect_port true ∷ [])
          (notify answers m)
  unfolding ip_listener all_tests
  IsAt-toggle ranges m h = ground (arith, good.connects)

  IsAt-first_subnet :
      (range : Range) (ranges : List Range) (calls : List Call) (m : Module)
      → IsAt
          (multi_subnet_test ∷ ip_change_test ∷ dhcp_change_test ∷ analyze ∷ [])
          (range ∷ ranges)
          (some next_test_callback)
          calls
          m
      → IsAt
          (ip_change_test ∷ dhcp_change_test ∷ analyze ∷ [])
          ranges
          (some (if nonempty ranges then multi_subnet_callback else next_test_callback))
          (calls ++ ping_test ∷ [] ++ change_dhcp_range range ∷ [])
          (notify answers m)
  unfolding ip_listener
  IsAt-first_subnet range ranges calls m h = ground (arith, good.changes_range)

  IsAt-subnet :
      (range : Range) (ranges : List Range) (calls : List Call) (m : Module)
      → IsAt
          (ip_change_test ∷ dhcp_change_test ∷ analyze ∷ [])
          (range ∷ ranges)
          (some multi_subnet_callback)
          calls
          m
      → IsAt
          (ip_change_test ∷ dhcp_change_test ∷ analyze ∷ [])
          ranges
          (some (if nonempty ranges then multi_subnet_callback else next_test_callback))
          (calls ++ ping_test ∷ [] ++ change_dhcp_range range ∷ [])
          (notify answers m)
  unfolding ip_listener
  IsAt-subnet range ranges calls m h = ground (arith, good.changes_range)

  IsAt-no_subnet :
      (calls : List Call) (m : Module)
      → IsAt
          (multi_subnet_test ∷ ip_change_test ∷ dhcp_change_test ∷ analyze ∷ [])
          []
          (some next_test_callback)
          calls
          m
      → IsAt
          (dhcp_change_test ∷ analyze ∷ [])
          []
          (some next_test_callback)
          (calls ++ ping_test ∷ [] ++ request_new_ip ∷ [])
          (notify answers m)
  unfolding ip_listener
  IsAt-no_subnet calls m h = ground (arith, good.requests_ip)

  IsAt-ip_change :
      (calls : List Call) (m : Module)
      → IsAt (ip_change_test ∷ dhcp_change_test ∷ analyze ∷ []) [] (some next_test_callback) calls m
      → IsAt
          (dhcp_change_test ∷ analyze ∷ [])
          []
          (some next_test_callback)
          (calls ++ ping_test ∷ [] ++ request_new_ip ∷ [])
          (notify answers m)
  unfolding ip_listener
  IsAt-ip_change calls m h = ground (arith, good.requests_ip)

  IsAt-dhcp_change :
      (calls : List Call) (m : Module)
      → IsAt (dhcp_change_test ∷ analyze ∷ []) [] (some next_test_callback) calls m
      → IsAt
          (analyze ∷ [])
          []
          (some next_test_callback)
          (calls
            ++ ping_test ∷ []
            ++ connect_port false ∷ []
            ++ request_new_ip ∷ []
            ++ connect_port true ∷ [])
          (notify answers m)
  unfolding ip_listener
  IsAt-dhcp_change calls m h = ground (arith, good.requests_ip, good.connects)

  IsAt-analyze :
      (calls : List Call) (m : Module)
      → IsAt (analyze ∷ []) [] (some next_test_callback) calls m
      → IsAt [] [] none (calls ++ ping_test ∷ [] ++ docker_start ∷ []) (notify answers m)
        × ((notify answers m).docker_started ≡ true)
  unfolding ip_listener
  IsAt-analyze calls m h = ground (arith, good.docker_starts)

-- The calls so far, and for each range a ping and the change to the range.
abbrev pub subnet_calls : List Range → List Call → List Call
subnet_calls [] calls = calls
subnet_calls (range ∷ ranges) calls =
    subnet_calls ranges (calls ++ ping_test ∷ [] ++ change_dhcp_range range ∷ [])

abbrev next_subnet : List Range → Option IpCallback
next_subnet ranges = some (if nonempty ranges then multi_subnet_callback else next_test_callback)

module _ (answers : Answers) (good : IsGood answers) where
  IsAt-subnets :
      (ranges : List Range) (calls : List Call) (m : Module)
      → IsAt (ip_change_test ∷ dhcp_change_test ∷ analyze ∷ []) ranges (next_subnet ranges) calls m
      → IsAt
          (ip_change_test ∷ dhcp_change_test ∷ analyze ∷ [])
          []
          (some next_test_callback)
          (subnet_calls ranges calls)
          (notified answers (length ranges) m)
  IsAt-subnets [] calls m h = h
  IsAt-subnets (range ∷ ranges) calls m h =
      IsAt-subnets ranges _ _ (IsAt-subnet answers good range ranges calls m h)

  IsAt-multi_subnet :
      (ranges : List Range) (calls : List Call) (m : Module)
      → IsAt
          (multi_subnet_test ∷ ip_change_test ∷ dhcp_change_test ∷ analyze ∷ [])
          ranges
          (some next_test_callback)
          calls
          m
      → IsAt
          (dhcp_change_test ∷ analyze ∷ [])
          []
          (some next_test_callback)
          (subnet_calls ranges calls ++ ping_test ∷ [] ++ request_new_ip ∷ [])
          (notified answers (length ranges + 1) m)
  IsAt-multi_subnet [] calls m h = IsAt-no_subnet answers good calls m h
  IsAt-multi_subnet (range ∷ ranges) calls m h =
      rw (notified_last answers (length (range ∷ ranges)) m) (
        IsAt-ip_change answers good _ _
          (IsAt-subnets ranges _ _ (IsAt-first_subnet answers good range ranges calls m h)))

-- All the calls: the port is switched off and on, each range is tried in its order, the device is asked to
-- take a new address, also with its port switched off and on, and the analysis starts. A ping comes first
-- each time.
abbrev pub all_calls : List Range → List Call
all_calls ranges =
    subnet_calls ranges (ping_test ∷ connect_port false ∷ connect_port true ∷ [])
    ++ ping_test ∷ []
    ++ request_new_ip ∷ []
    ++ ping_test ∷ []
    ++ connect_port false ∷ []
    ++ request_new_ip ∷ []
    ++ connect_port true ∷ []
    ++ ping_test ∷ []
    ++ docker_start ∷ []

three_more : (n : ℕ) → n + 4 ≡ suc (n + 1 + 1 + 1)
three_more n = omega arith

-- The address tests come to their end. If every call goes through, then after a notification for each
-- range and four more the calls are those of all the tests in their order, no test and no range is left,
-- the analysis has started and no further notification is listened to.
pub notified-all_tests :
    (answers : Answers) (ranges : List Range) (lease_time : Option (ℕ × String))
    → IsGood answers
    → let m = notified answers (length ranges + 4) (started ranges lease_time) in
      (m.tests ≡ [])
      × (m.test_dhcp_ranges ≡ [])
      × (m.ip_callback ≡ none)
      × (m.calls ≡ all_calls ranges)
      × (m.docker_started ≡ true)
unfolding started
notified-all_tests answers ranges lease_time good =
    let m = notify answers (started ranges lease_time) in
    let a =
      IsAt-multi_subnet answers good ranges _ m
        (IsAt-toggle answers good ranges (started ranges lease_time) (refl, refl, refl, refl)) in
    let b = IsAt-dhcp_change answers good _ _ a in
    let c = IsAt-analyze answers good _ _ b in
    rw
      (
        three_more (length ranges),
        notified_last answers (length ranges + 1 + 1) m,
        notified_last answers (length ranges + 1) m,
      )
      (c.0.0, c.0.1, c.0.2, c.0.3, c.1)
