-- ===== src/Runner/Suppressed.antt =====
-- daq/runner.py: once `run_tests` is off, no call turns it on again.
use daq.Base.{
  ℕ, String, ◌≡◌, refl, Bool, false, Option, some, List, [], ◌∷◌, arith, nat_eq, string_eq,
}
use daq.Base.Dict.{Dict}
use daq.Base.Action.{Action, ◌>>◌}
use daq.Base.Action.Preserves.{
  Preserves, Preserves-modify, Preserves-bind, Preserves-maybe, Preserves-after, preserves_rules,
}
use daq.Devices.{Device, PortInfo, Registry}
use daq.Gateway.{GatewayKind, Gateway}
use daq.Host.{Session, Recorded}
use daq.Runner.{
  stop_tests, note_failures, Runner, Config, Surroundings, on_registry, on_device, on_port,
  on_gateway_object, on_host_object, find_gateway_set, make_gateway, start_gateway, build_gateway,
  group_gateway, create_device_gateway, create_gateway, retire_gateway, leave_gateway,
  detach_gateway, ensure_port, activate_port, target_set_finalize, linger_target, close_target,
  cancel_host, target_set_cancel, record_exception, target_set_complete, target_set_error, add_host,
  launch_host, run_target, choose_gateway, target_set_activate, accept_trigger, target_set_trigger,
  pop_target, target_set_consider, apply_run_limit, apply_fail_mode,
}

abbrev pub Stopped : Runner → Type 0
Stopped r = r.run_tests ≡ false

pub on_registry-Stopped : {A : Type 0} (m : Action Registry A) → Preserves Stopped (on_registry m)
unfolding on_registry
on_registry-Stopped m = record { from = λ s h. h }

pub on_device-Stopped : (o : ℕ) (f : Device → Device) → Preserves Stopped (on_device o f)
unfolding on_device
on_device-Stopped o f = record { from = λ s h. h }

pub on_port-Stopped : (o : ℕ) (f : PortInfo → PortInfo) → Preserves Stopped (on_port o f)
unfolding on_port
on_port-Stopped o f = record { from = λ s h. h }

pub on_gateway_object-Stopped :
    {A : Type 0} (g : ℕ) (m : Action Gateway A) → Preserves Stopped (on_gateway_object g m)
unfolding on_gateway_object
on_gateway_object-Stopped g m = record { from = λ s h. h }

pub on_host_object-Stopped :
    {A : Type 0} (h : ℕ) (m : Action Session A) → Preserves Stopped (on_host_object h m)
unfolding on_host_object
on_host_object-Stopped g m = record { from = λ s h. h }

pub ruleset stopped_rules = (
  preserves_rules, Preserves-modify, on_registry-Stopped, on_device-Stopped, on_port-Stopped,
  on_gateway_object-Stopped, on_host_object-Stopped,
)

find_gateway_set-Stopped : (device : ℕ) → Preserves Stopped (find_gateway_set device)
unfolding find_gateway_set
find_gateway_set-Stopped device = search stopped_rules depth 10

make_gateway-Stopped :
    (kind : GatewayKind) (name : String) (set : ℕ) (native : Bool)
    → Preserves Stopped (make_gateway kind name set native)
unfolding make_gateway
make_gateway-Stopped kind name set native = search stopped_rules depth 12

start_gateway-Stopped :
    (env : Surroundings) (native : Bool) (set g : ℕ)
    → Preserves Stopped (start_gateway env native set g)
unfolding start_gateway
start_gateway-Stopped env native set g = search stopped_rules depth 12

build_gateway-Stopped :
    (env : Surroundings) (kind : GatewayKind) (name : String) (set : ℕ) (native : Bool)
    → Preserves Stopped (build_gateway env kind name set native)
unfolding build_gateway
build_gateway-Stopped env kind name set native =
    search (stopped_rules, make_gateway-Stopped, start_gateway-Stopped) depth 12

group_gateway-Stopped :
    (env : Surroundings) (device : ℕ) → Preserves Stopped (group_gateway env device)
unfolding group_gateway
group_gateway-Stopped env device =
    search (stopped_rules, find_gateway_set-Stopped, build_gateway-Stopped) depth 12

create_device_gateway-Stopped :
    (env : Surroundings) (device : ℕ) → Preserves Stopped (create_device_gateway env device)
unfolding create_device_gateway
create_device_gateway-Stopped env device = search (stopped_rules, group_gateway-Stopped) depth 12

retire_gateway-Stopped :
    (env : Surroundings) (device g : ℕ) → Preserves Stopped (retire_gateway env device g)
unfolding retire_gateway
retire_gateway-Stopped env device g = search stopped_rules depth 12

leave_gateway-Stopped :
    (env : Surroundings) (device g : ℕ) → Preserves Stopped (leave_gateway env device g)
unfolding leave_gateway
leave_gateway-Stopped env device g = search (stopped_rules, retire_gateway-Stopped) depth 12

detach_gateway-Stopped :
    (env : Surroundings) (device : ℕ) → Preserves Stopped (detach_gateway env device)
unfolding detach_gateway
detach_gateway-Stopped env device = search (stopped_rules, leave_gateway-Stopped) depth 12

ensure_port-Stopped : (port : ℕ) → Preserves Stopped (ensure_port port)
unfolding ensure_port
ensure_port-Stopped port = search stopped_rules depth 12

pub activate_port-Stopped : (port : ℕ) → Preserves Stopped (activate_port port)
unfolding activate_port
activate_port-Stopped port = search (stopped_rules, ensure_port-Stopped) depth 12

linger_target-Stopped : (port gateway : Option ℕ) → Preserves Stopped (linger_target port gateway)
unfolding linger_target
linger_target-Stopped port gateway = search (stopped_rules, activate_port-Stopped) depth 12

close_target-Stopped :
    (env : Surroundings) (device h : ℕ) (port : Option ℕ)
    → Preserves Stopped (close_target env device h port)
unfolding close_target
close_target-Stopped env device h port = search (stopped_rules, detach_gateway-Stopped) depth 12

cancel_host-Stopped :
    (config : Config) (env : Surroundings) (device h : ℕ)
    → Preserves Stopped (cancel_host config env device h)
unfolding cancel_host
cancel_host-Stopped config env device h =
    search (stopped_rules, linger_target-Stopped, close_target-Stopped) depth 12

target_set_cancel-Stopped :
    (config : Config) (env : Surroundings) (device : ℕ)
    → Preserves Stopped (target_set_cancel config env device)
unfolding target_set_cancel
target_set_cancel-Stopped config env device = search (stopped_rules, cancel_host-Stopped) depth 12

record_exception-Stopped : (device : ℕ) → Preserves Stopped (record_exception device)
unfolding record_exception
record_exception-Stopped device = search stopped_rules depth 12

add_host-Stopped : (env : Surroundings) (device g : ℕ) → Preserves Stopped (add_host env device g)
unfolding add_host
add_host-Stopped env device g = search stopped_rules depth 12

launch_host-Stopped :
    (env : Surroundings) (device g : ℕ) → Preserves Stopped (launch_host env device g)
unfolding launch_host
launch_host-Stopped env device g = search (stopped_rules, add_host-Stopped) depth 12

create_gateway-Stopped :
    (env : Surroundings) (device : ℕ) → Preserves Stopped (create_gateway env (some device))
unfolding create_gateway
create_gateway-Stopped env device = search (stopped_rules, create_device_gateway-Stopped) depth 12

module _ (config : Config) (env : Surroundings) (drain : Action Runner (Unit {0}))
    (kept : Preserves Stopped drain) where
  stop_tests-Stopped : Preserves Stopped stop_tests
  unfolding stop_tests
  stop_tests-Stopped = Preserves-modify _ (λ s h. refl)

  note_failures-Stopped : Preserves Stopped (note_failures config)
  unfolding note_failures
  note_failures-Stopped = Preserves-modify _ (λ s h. refl)

  apply_run_limit-Stopped : Preserves Stopped (apply_run_limit config)
  unfolding apply_run_limit
  apply_run_limit-Stopped = Preserves-modify _ (λ s h. ground arith)

  apply_fail_mode-Stopped : Preserves Stopped (apply_fail_mode config)
  unfolding apply_fail_mode
  apply_fail_mode-Stopped = Preserves-modify _ (λ s h. ground arith)

  drained-Stopped : Preserves Stopped (drain >> stop_tests)
  drained-Stopped = search (stopped_rules, kept, stop_tests-Stopped) depth 6

  target_set_finalize-Stopped :
      (device : ℕ) (results : Dict String Recorded)
      → Preserves Stopped (target_set_finalize config drain device results)
  unfolding target_set_finalize
  target_set_finalize-Stopped device results =
      search (stopped_rules, drained-Stopped, apply_run_limit-Stopped, note_failures-Stopped) depth
        14

  pub target_set_complete-Stopped :
      (device : ℕ) → Preserves Stopped (target_set_complete config env drain device)
  unfolding target_set_complete
  target_set_complete-Stopped device =
      search
        (
          stopped_rules, target_set_cancel-Stopped, record_exception-Stopped,
          target_set_finalize-Stopped,
        )
        depth 14

  pub target_set_error-Stopped :
      (device : ℕ) → Preserves Stopped (target_set_error config env drain device)
  unfolding target_set_error
  target_set_error-Stopped device =
      search
        (
          stopped_rules, record_exception-Stopped, target_set_complete-Stopped,
          target_set_finalize-Stopped, detach_gateway-Stopped,
        )
        depth 14

  run_target-Stopped : (device g : ℕ) → Preserves Stopped (run_target config env drain device g)
  unfolding run_target
  run_target-Stopped device g =
      search (stopped_rules, launch_host-Stopped, target_set_error-Stopped) depth 14

  choose_gateway-Stopped : (device : ℕ) → Preserves Stopped (choose_gateway config env device)
  unfolding choose_gateway
  choose_gateway-Stopped device =
      search (stopped_rules, create_gateway-Stopped, apply_fail_mode-Stopped) depth 14

  target_set_activate-Stopped :
      (device : ℕ) → Preserves Stopped (target_set_activate config env drain device)
  unfolding target_set_activate
  target_set_activate-Stopped device =
      search (stopped_rules, choose_gateway-Stopped, run_target-Stopped) depth 14

  accept_trigger-Stopped : (device : ℕ) → Preserves Stopped (accept_trigger config env drain device)
  unfolding accept_trigger
  accept_trigger-Stopped device = search (stopped_rules, target_set_activate-Stopped) depth 14

  pub target_set_trigger-Stopped :
      (remote : Bool) (device : ℕ)
      → Preserves Stopped (target_set_trigger config env drain remote device)
  unfolding target_set_trigger
  target_set_trigger-Stopped remote device = search (stopped_rules, accept_trigger-Stopped) depth 14

  pop_target-Stopped : (queue : List ℕ) → Preserves Stopped (pop_target config env drain queue)
  unfolding pop_target
  pop_target-Stopped [] = search stopped_rules
  pop_target-Stopped (d ∷ ds) = search (stopped_rules, target_set_activate-Stopped) depth 14

  pub target_set_consider-Stopped : Preserves Stopped (target_set_consider config env drain)
  unfolding target_set_consider
  target_set_consider-Stopped = search (stopped_rules, pop_target-Stopped) depth 14
