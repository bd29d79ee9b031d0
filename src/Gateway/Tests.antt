-- ===== src/Gateway/Tests.antt =====
-- daq/base_gateway.py: samples.
use daq.Base.{
  ℕ, ◌+◌, ◌*◌, ◌≤◌, ◌<◌, String, ◌≡◌, refl, Bool, true, false, ◌||◌, none, List, [], ◌∷◌, arith,
  leb, ◌==◌, nat_eq, string_eq, contains, pair_eq,
}
use daq.Base.Action.{ok}
use daq.Base.FirstFree.{first_free}
use daq.Gateway.{
  Gateway, container_gateway, Answers, allocate_test_port, release_test_port, attach_target,
}
use daq.Gateway.Ports.{IsPortValid, allocate_test_port-IsPortValid, release-allocate_test_port}

-- A gateway on port set 1 with the given targets and test ports.
abbrev sample : List (String × ℕ) → List ℕ → Gateway
sample targets test_ports = record {
  kind = container_gateway;
  name = "gw01";
  port_set = 1;
  is_native = false;
  host = false;
  dummy = false;
  fake_target = false;
  targets = targets;
  test_ports = test_ports;
  ready = [];
  activated = false;
  result_linger = false;
  dhcp_monitor = false;
  scan_monitor = none;
}

abbrev in_use : Gateway
in_use = sample (("9a:01", 0) ∷ ("9a:02", 1) ∷ []) (12 ∷ 14 ∷ [])

-- The third ping is the first that succeeds.
abbrev third_ping : ℕ → Bool
third_ping k = leb 2 k

abbrev slow : Answers
slow = record { add_host = true; add_dummy = true; ping = third_ping }

in_use-IsPortValid : IsPortValid in_use
in_use-IsPortValid = record { distinct = (refl, (refl, tt)); in_range = λ p h. ground arith }

in_use_allocation : (allocate_test_port in_use).0 ≡ ok 13
unfolding allocate_test_port first_free
in_use_allocation = refl

in_use_attachment : (attach_target "9a:03" 2 in_use).0 ≡ ok 3
unfolding attach_target
in_use_attachment = refl

allocate_test_port_example :
    let g' = (allocate_test_port in_use).1 in
    IsPortValid g'
    × (contains in_use.test_ports 13 ≡ false)
    × (1 * 10 + 2 ≤ 13)
    × (13 < 1 * 10 + 6)
    × ((q : ℕ) → contains g'.test_ports q ≡ (contains in_use.test_ports q || q == 13))
allocate_test_port_example =
    allocate_test_port-IsPortValid in_use 13 in_use-IsPortValid in_use_allocation

release_test_port_example :
    let (result, g'') = release_test_port 13 (allocate_test_port in_use).1 in
    (result ≡ ok tt) × ((q : ℕ) → contains g''.test_ports q ≡ contains in_use.test_ports q)
release_test_port_example = release-allocate_test_port in_use 13 in_use_allocation
