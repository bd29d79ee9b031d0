-- ===== src/Runner/Tests.antt =====
-- daq/runner.py: samples.
use daq.Runner.Detach.{attached, detach_gateway_outcome, others}
use daq.Runner.Triggers.{Triggered, target_set_trigger_outcome}
use daq.Base.{
  ℕ, zero, suc, ◌+◌, String, ◌≡◌, refl, ◌↔◌, ◌⊎◌, Bool, true, false, not, ◌&&◌, ◌||◌, none, some,
  List, [], ◌∷◌, is_some, ◌==◌, nat_eq, string_eq, length, select, All, contains, pair_eq,
}
use daq.Base.Dict.{Dict}
use daq.Base.Action.{Error, ok, err, skip}
use daq.Devices.{Registry, Device, DhcpMode, fresh_device, get_by_port_info, first_device}
use daq.Gateway.{Gateway, fresh_gateway, container_gateway, Answers}
use daq.Host.{Recorded, Host, ready}
use daq.Runner
use daq.Runner.{
  main_loop, drained, Round, target_failed, switched, arrived, lost, broken, handle_faucet_events,
  process_faucet_event, terminate_all, Runner, Config, Surroundings, HostObject, the_device,
  the_port, find_gateway_set, group_gateway, detach_gateway, finalize, all_trigger_ready,
  activate_port, is_port_active, port_down, reap_port, target_set_trigger, target_set_consider,
  target_set_activate, number_triggered, is_ignored,
}
use daq.Config.Tree.{Text, codes, text_eq}
use daq.Config.Flat.{done}
use daq.Runner.TestList.{Entry, Lists, get_test_list, get_test_list-tests, command}
use daq.Runner.Sets.{group_gateway_outcome}
use daq.Runner.Results.{
  ModuleResult, calculate_device_result, Unfailed, calculate_device_result_lem, Clean,
  finalize_zero,
}
use daq.Runner.Suppressed.{Stopped}
use daq.Events.{Event}
use daq.Runner.Looping.{main_loop-Stopped}

-- Device 0 on port 3 with gateway 0 and host 0, and device 1 on port 4 with neither.
abbrev device_of : ℕ → Device
device_of zero = record (fresh_device "9a:01" 0 none) {
  host = some 0;
  gateway = some 0;
  set_id = some 3;
}
device_of (suc n) = record (fresh_device "9a:02" 1 none) { set_id = some 4 }

abbrev registry : Registry
registry = record {
  device_at = device_of;
  device_count = 2;
  port_at = λ p. record { active = true; flapping_start = some 0; port_no = some (p + 3) };
  port_count = 2;
  devices = ("9a:01", 0) ∷ ("9a:02", 1) ∷ [];
  set_ids = 3 ∷ 4 ∷ [];
}

abbrev host : Host
host = record {
  phase = ready;
  test_list = "ping" ∷ [];
  enabled_tests = "ping" ∷ [];
  remaining_tests = "ping" ∷ [];
  no_test = false;
  monitor_scan_sec = 0;
  static_ip = none;
  test_name = none;
  test_host = none;
  test_port = none;
  capture = none;
  timeout_handler = none;
  target_ip = none;
  all_ips = [];
  results = [];
}

abbrev runner : List ℕ → Bool → Runner
runner queue tests = record {
  registry = registry;
  gateway_at =
      λ g. record (fresh_gateway container_gateway "gw" 3 false) { targets = ("9a:01", 0) ∷ [] };
  gateway_count = 1;
  host_at = λ h. record { host = host; gateway = 0; device = 0 };
  host_count = 1;
  gateway_sets = 1 ∷ 2 ∷ 4 ∷ [];
  native_gateway = none;
  ports = (3, 0) ∷ (4, 1) ∷ [];
  target_set_queue = queue;
  result_sets = (0, ("ping", record { mode = none; code = some 0; exception = false }) ∷ []) ∷ [];
  system_active = true;
  run_tests = tests;
  linger_exit = 0;
  exception = false;
  run_count = 1;
  calls = [];
}

abbrev config : ℕ → Config
config max_hosts = record {
  max_hosts = some max_hosts;
  fail_mode = false;
  result_linger = false;
  run_limit = 0;
  single_shot = true;
  port_flap_timeout = 10;
  mode_of = λ _. DhcpMode.normal;
  ext_mac = none;
  native_vlan = none;
  reports_devices = false;
  sec_dpid = some 2;
  sec_port = 9;
}

abbrev env : Surroundings
env = record {
  group = "lights";
  answers = record { add_host = true; add_dummy = true; ping = λ _. true };
  gateway_ends = (true, true);
  native_interface = true;
  stops_dhcp = true;
  made_host = some host;
  directs = true;
  host_ends = true;
  now = 100;
}

group_gateway_example :
    let r = runner [] true in
    let (result, r') = group_gateway env 1 r in
    ((result ≡ ok 1)
      × (contains r.gateway_sets (r'.gateway_at 1).port_set ≡ true)
      × ((q : ℕ)
          → contains r'.gateway_sets q
            ≡ (contains r.gateway_sets q && not (q == (r'.gateway_at 1).port_set))))
    ⊎ ((x : Error) × (result ≡ err x)
        × ((q : ℕ) → contains r'.gateway_sets q ≡ contains r.gateway_sets q))
group_gateway_example = group_gateway_outcome env 1 (runner [] true) refl

detached : (detach_gateway env 0 (runner [] true)).0 ≡ ok tt
unfolding detach_gateway Runner.leave_gateway Runner.retire_gateway Runner.on_gateway_object
    Runner.on_device daq.Gateway.detach_target daq.Gateway.terminate fresh_device
detached = refl

attached_0 : attached 0 0 (runner [] true) ≡ true
unfolding fresh_device
attached_0 = refl

detach_gateway_example :
    let r = runner [] true in
    let r' = (detach_gateway env 0 r).1 in
    ((the_device 0 r').gateway ≡ none)
    × ((q : ℕ)
        → contains r'.gateway_sets q
          ≡ (contains r.gateway_sets q || ((others 0 0 r == 0) && q == (r.gateway_at 0).port_set)))
detach_gateway_example = detach_gateway_outcome env 0 0 (runner [] true) refl attached_0 detached

target_set_trigger_example :
    let (result, r') = target_set_trigger (config 1) env skip false 1 (runner [] true) in
    Triggered (config 1) env skip false 1 (runner [] true) result r'
target_set_trigger_example = target_set_trigger_outcome (config 1) env skip false 1 (runner [] true)

abbrev modules : Dict String ModuleResult
modules =
    (
      "ping",
      record {
        exception = false;
        return_code = some 0;
        tests = ("base.ping", "pass") ∷ ("base.extra", "skip") ∷ [];
      },
    )
    ∷ []

calculate_device_result_example :
    (calculate_device_result ("ping" ∷ []) modules ≡ true)
    ↔ (All Unfailed modules × (1 ≡ length (select (λ e. is_some e.1.return_code) modules)))
calculate_device_result_example = calculate_device_result_lem ("ping" ∷ []) modules

finalize_example : (finalize false (runner [] true) ≡ 0) ↔ (
    (false ≡ false)
    × All (λ (s : ℕ × Dict String Recorded). Clean s.1) (runner [] true).result_sets)
finalize_example = finalize_zero false (runner [] true)

on_port_0 : get_by_port_info 0 registry ≡ some 0
unfolding get_by_port_info first_device fresh_device
on_port_0 = refl

abbrev round : Round
round = record {
  env = env;
  called = switched (
      arrived (Event.learn 2 3 "9a:02" 1)
      ∷ lost
      ∷ arrived (Event.port_change 2 4 true "ADD" true)
      ∷ []);
  on_error = some (target_failed 0);
  arrivals = λ depth. arrived (Event.port_change 2 3 false "MODIFY" true) ∷ [];
  depth = 2;
  timeouts = λ device. none;
  beats = λ device. (false, false);
}

main_loop-Stopped_example :
    Stopped
      (main_loop
        (config 2)
        false
        env
        (drained (config 2) false env round.arrivals 1)
        (round ∷ round ∷ [])
        (runner (1 ∷ []) false)).1
main_loop-Stopped_example =
    main_loop-Stopped (config 2) false env round.arrivals 1 (round ∷ round ∷ [])
      (runner (1 ∷ []) false) refl

abbrev idle_runner : Runner
idle_runner = record (runner [] true) { registry = record registry { devices = [] } }

abbrev test_file : List Text
test_file = codes "add macoui # vendors\n" ∷ codes "add pass first\n" ∷ []

abbrev test_entries : List Entry
test_entries = (codes "macoui", none) ∷ (codes "pass", some (codes "first")) ∷ []

listed : Lists test_file test_entries
unfolding command
listed = (refl, (refl, tt))

get_test_list-tests_example :
    get_test_list (λ file. some test_file) some 1 false (codes "tests.conf")
    ≡ done (some (codes "pass") ∷ some (codes "macoui") ∷ [])
get_test_list-tests_example =
    get_test_list-tests (λ file. some test_file) some zero (codes "tests.conf") test_file
      test_entries refl listed
