-- ===== src/Runner/Targets.antt =====
-- daq/runner.py: a target set, from its trigger to its end.
use daq.Base.{
  ℕ, ◌+◌, String, Bool, true, false, not, ◌&&◌, ◌||◌, Option, none, some, List, [], ◌∷◌, ◌++◌, ltb,
  leb, if◌then◌else◌, is_some, ◌==◌, nat_eq, string_eq, select, nonempty, contains, remove_first,
}
use daq.Base.Dict.{Dict, keys, get, insert}
use daq.Base.Action.{
  attribute, raised, Action, pure, gets, or_raise, try_except, skip, modify, assert, when, maybe,
  ◌>>=◌, ◌>>◌,
}
use daq.Devices.{Device, Registry, update, is_external, truthy}
use daq.Devices
use daq.Gateway
use daq.Gateway.{Gateway}
use daq.Host
use daq.Host.{Host, Session, Recorded, failed}
use daq.Runner.State.{
  Runner, Config, Surroundings, on_registry, on_gateway_object, on_host_object, on_device, on_port,
  the_device, the_port, succeeds, number_triggered,
}
use daq.Runner.Pool.{create_gateway, detach_gateway}

-- A result counts as a failure if it has an exception or a code that is not 0.
unfoldable pub is_failure : Recorded → Bool
is_failure result = result.exception || (elim result.code [ none ↦ false | some n ↦ not (n == 0) ])

-- `_combine_result_set`: the names of the failures; their order, which the source sorts, is only shown.
unfoldable pub combine_result_set : Option (Dict String Recorded) → List String
unfolding is_failure
combine_result_set none = []
combine_result_set (some results) = keys (select (λ entry. is_failure entry.1) results)

-- `_combine_results` over all result sets.
unfoldable pub combine_results : Dict ℕ (Dict String Recorded) → List String
unfolding combine_result_set
combine_results [] = []
combine_results ((device, results) ∷ sets) =
    combine_result_set (some results) ++ combine_results sets

-- The exit code that `finalize` returns; `exception` says whether the runner has one.
unfoldable pub finalize : Bool → Runner → ℕ
unfolding combine_results
finalize exception r = if nonempty (combine_results r.result_sets) || exception then 1 else 0

-- `_activate_port`; a port that is not known gets a new PortInfo.
unfoldable pub ensure_port : ℕ → Action Runner ℕ
unfolding ◌>>=◌ on_registry on_port
ensure_port port = do
  known ← gets (λ r. get port r.ports)
  maybe known
      (do
        p ← on_registry Devices.new_port_info
        modify (λ r. record r { ports = insert port p r.ports })
        on_port p (λ i. record i { port_no = some port })
        pure p)
      pure

unfoldable pub activate_port : ℕ → Action Runner (Unit {0})
unfolding ◌>>=◌ ensure_port on_port
activate_port port = do
  p ← ensure_port port
  on_port p (λ i. record i { flapping_start = some 0; active = true })

abbrev has_room : Config → Runner → Bool
has_room config r = elim config.max_hosts [ none ↦ true | some n ↦ ltb (number_triggered r) n ]

unfoldable pub stop_tests : Action Runner (Unit {0})
unfolding ◌>>=◌
stop_tests = modify (λ r. record r { run_tests = false })

-- Failures suppress further tests in fail mode and when results linger.
unfoldable pub note_failures : Config → Action Runner (Unit {0})
unfolding ◌>>=◌
note_failures config = modify (λ r. record r {
  run_tests = false;
  linger_exit = (if config.result_linger then 1 else r.linger_exit);
})

unfoldable pub apply_run_limit : Config → Action Runner (Unit {0})
unfolding ◌>>=◌
apply_run_limit config = modify (λ r. record r {
  run_tests = r.run_tests && not (not (config.run_limit == 0) && leb config.run_limit r.run_count);
})

-- In fail mode no more tests are run after a target that cannot be triggered.
unfoldable pub apply_fail_mode : Config → Action Runner (Unit {0})
unfolding ◌>>=◌
apply_fail_mode config = modify (λ r. record r { run_tests = r.run_tests && not config.fail_mode })

-- `_target_set_finalize`; `drain` handles the switch events that are still queued.
unfoldable pub target_set_finalize :
    Config → Action Runner (Unit {0}) → ℕ → Dict String Recorded → Action Runner (Unit {0})
unfolding ◌>>=◌ on_registry on_device combine_result_set apply_run_limit stop_tests note_failures
target_set_finalize config drain device results = do
  when (nonempty (combine_result_set (some results)) && (config.fail_mode || config.result_linger))
      (note_failures config)
  modify (λ r. record r { result_sets = insert device results r.result_sets })
  apply_run_limit config
  running ← gets (λ r. r.run_tests)
  when (config.single_shot && running) (drain >> stop_tests)
  on_device device (λ d. record d { host = none })
  on_registry (Devices.remove device)

-- The end of a target set whose results linger: the port stays active for inspection.
unfoldable pub linger_target : Option ℕ → Option ℕ → Action Runner (Unit {0})
unfolding ◌>>=◌ activate_port on_gateway_object
linger_target port gateway = do
  when (truthy port) (maybe port skip activate_port)
  g ← or_raise gateway attribute
  on_gateway_object g (modify (λ x. record x { result_linger = true }))

-- The end of a target set with its traffic cut off, its gateway left and its host terminated.
unfoldable pub close_target : Surroundings → ℕ → ℕ → Option ℕ → Action Runner (Unit {0})
unfolding ◌>>=◌ detach_gateway on_host_object
close_target env device h port = do
  when (truthy port) (succeeds env.directs)
  detach_gateway env device
  on_host_object h (Host.terminate env.host_ends false)

abbrev lingers : Config → ℕ → Option ℕ → Runner → Bool
lingers config device gateway r =
    (elim gateway [ none ↦ false | some g ↦ (r.gateway_at g).result_linger ])
    || (nonempty (combine_result_set (get device r.result_sets)) && config.result_linger)

unfoldable pub cancel_host : Config → Surroundings → ℕ → ℕ → Action Runner (Unit {0})
unfolding ◌>>=◌ linger_target close_target
cancel_host config env device h = do
  gateway ← gets (λ r. (the_device device r).gateway)
  port ← gets (λ r. (the_port device r).port_no)
  linger ← gets (lingers config device gateway)
  if linger then linger_target port gateway else close_target env device h port

-- `_target_set_cancel`
unfoldable pub target_set_cancel : Config → Surroundings → ℕ → Action Runner (Unit {0})
unfolding ◌>>=◌ cancel_host
target_set_cancel config env device = do
  modify (λ r. record r { target_set_queue = remove_first r.target_set_queue device })
  host ← gets (λ r. (the_device device r).host)
  maybe host skip (cancel_host config env device)

-- `device.host.record_result(device.host.test_name, exception=...)`
unfoldable pub record_exception : ℕ → Action Runner (Unit {0})
unfolding ◌>>=◌ on_host_object Host.record_result Host.keep_result Host.on_host
record_exception device = do
  host ← gets (λ r. (the_device device r).host)
  h ← or_raise host attribute
  on_host_object h (do name ← gets (λ s. s.host.test_name); Host.record_result name failed)

-- `target_set_complete`
unfoldable pub target_set_complete :
    Config → Surroundings → Action Runner (Unit {0}) → ℕ → Action Runner (Unit {0})
unfolding ◌>>=◌ target_set_cancel record_exception target_set_finalize
target_set_complete config env drain device = do
  try_except (target_set_cancel config env device) (λ x. record_exception device)
  host ← gets (λ r. (the_device device r).host)
  h ← or_raise host attribute
  results ← gets (λ r. (r.host_at h).host.results)
  target_set_finalize config drain device results

-- `target_set_error`; the result that is sent for the device goes to a remote client.
unfoldable pub target_set_error :
    Config → Surroundings → Action Runner (Unit {0}) → ℕ → Action Runner (Unit {0})
unfolding ◌>>=◌ record_exception target_set_complete target_set_finalize detach_gateway
target_set_error config env drain device = do
  running ← gets (λ r. is_some (the_device device r).host)
  if running
      then record_exception device >> target_set_complete config env drain device
      else target_set_finalize config drain device (("exception", failed) ∷ [])
        >> detach_gateway env device

-- The new host of a device.
unfoldable pub add_host : Surroundings → ℕ → ℕ → Action Runner ℕ
unfolding ◌>>=◌ on_device
add_host env device g = do
  modify (λ r. record r { run_count = r.run_count + 1 })
  made ← or_raise env.made_host raised
  h ← gets (λ r. r.host_count)
  modify (λ r. record r {
    host_at = update r.host_at h (record { host = made; gateway = g; device = device });
    host_count = h + 1;
  })
  on_device device (λ d. record d { host = some h })
  pure h

unfoldable pub launch_host : Surroundings → ℕ → ℕ → Action Runner (Unit {0})
unfolding ◌>>=◌ add_host on_host_object
launch_host env device g = do
  h ← add_host env device g
  on_host_object h Host.initialize
  succeeds env.directs

-- The part of `_target_set_activate` behind the choice of a gateway.
unfoldable pub run_target :
    Config → Surroundings → Action Runner (Unit {0}) → ℕ → ℕ → Action Runner Bool
unfolding ◌>>=◌ on_gateway_object on_device launch_host target_set_error
run_target config env drain device g = do
  external ← gets (λ r. is_external (the_device device r).dhcp_mode)
  when (not external) (succeeds env.stops_dhcp)
  mac ← gets (λ r. (the_device device r).mac)
  on_gateway_object g (Gateway.attach_target mac device)
  on_device device (λ d. record d { gateway = some g })
  try_except (launch_host env device g >> pure true)
      (λ x. target_set_error config env drain device >> pure false)

-- The first `try` of `_target_set_activate`: none for a gateway that cannot be used.
unfoldable pub choose_gateway : Config → Surroundings → ℕ → Action Runner (Option ℕ)
unfolding ◌>>=◌ on_device create_gateway apply_fail_mode
choose_gateway config env device =
    try_except
      (do
        on_device device (λ d. record d { group = some env.group })
        g ← create_gateway env (some device)
        external ← gets (λ r. is_external (the_device device r).dhcp_mode)
        activated ← gets (λ r. (r.gateway_at g).activated)
        pure (if activated && not external then none else some g))
      (λ x. apply_fail_mode config >> pure none)

unfoldable pub target_set_activate :
    Config → Surroundings → Action Runner (Unit {0}) → ℕ → Action Runner Bool
unfolding ◌>>=◌ choose_gateway run_target
target_set_activate config env drain device = do
  port ← gets (the_port device)
  assert (not (is_some port.port_no) || port.active)
  gateway ← choose_gateway config env device
  maybe gateway (pure false) (run_target config env drain device)

-- The tests of `_target_set_trigger`, in their order: why a trigger is ignored.
unfoldable pub is_ignored : Bool → ℕ → Runner → Bool
is_ignored remote_trigger device r =
    not r.system_active
    || is_some (the_device device r).host
    || not r.run_tests
    || ((the_device device r).wait_remote && not remote_trigger)
    || contains r.target_set_queue device

unfoldable pub accept_trigger :
    Config → Surroundings → Action Runner (Unit {0}) → ℕ → Action Runner (Unit {0})
unfolding ◌>>=◌ on_device target_set_activate
accept_trigger config env drain device = do
  on_device device (λ d. record d { wait_remote = false })
  room ← gets (has_room config)
  if room
      then target_set_activate config env drain device >> skip
      else modify (λ r. record r { target_set_queue = r.target_set_queue ++ device ∷ [] })

unfoldable pub target_set_trigger :
    Config → Surroundings → Action Runner (Unit {0}) → Bool → ℕ → Action Runner (Unit {0})
unfolding ◌>>=◌ is_ignored accept_trigger
target_set_trigger config env drain remote_trigger device = do
  assert (← gets (λ r. Devices.holds r.registry device))
  ignored ← gets (is_ignored remote_trigger device)
  when (not ignored) (accept_trigger config env drain device)

unfoldable pub pop_target :
    Config → Surroundings → Action Runner (Unit {0}) → List ℕ → Action Runner (Unit {0})
unfolding ◌>>=◌ target_set_activate
pop_target config env drain [] = skip
pop_target config env drain (device ∷ devices) = do
  modify (λ r. record r { target_set_queue = devices })
  target_set_activate config env drain device
  skip

-- `_target_set_consider`
unfoldable pub target_set_consider :
    Config → Surroundings → Action Runner (Unit {0}) → Action Runner (Unit {0})
unfolding ◌>>=◌ pop_target
target_set_consider config env drain = do
  room ← gets (has_room config)
  queue ← gets (λ r. r.target_set_queue)
  when room (pop_target config env drain queue)
