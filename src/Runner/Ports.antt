-- ===== src/Runner/Ports.antt =====
-- daq/runner.py: what the runner does on a port event and on a learned device.
use daq.Base.{
  ℕ, ◌+◌, String, Bool, true, false, not, ◌&&◌, Option, none, some, List, [], ◌∷◌, ltb, leb,
  if◌then◌else◌, is_some, ◌==◌, nat_eq, string_eq,
}
use daq.Base.Dict.{get}
use daq.Base.Action.{Action, gets, skip, modify, assert, when, maybe, ◌>>=◌, ◌>>◌}
use daq.Devices.{
  DhcpMode, Device, Registry, truthy, fresh_port, get_by_port_info, get_triggered_devices,
}
use daq.Devices
use daq.Runner.State.{
  Runner, Config, Surroundings, on_registry, on_device, on_port, the_device, the_port, succeeds,
}
use daq.Runner.Targets.{target_set_trigger, target_set_error, activate_port}

-- daq/network.py, with daq/topology.py's PRI_DPID and PRI_TRUNK_PORT.
unfoldable pub is_system_port : ℕ → ℕ → Bool
is_system_port dpid port = dpid == 1 && port == 1

unfoldable pub is_device_port : Config → ℕ → ℕ → Bool
is_device_port config dpid port =
    (elim config.sec_dpid [ none ↦ false | some d ↦ dpid == d ]) && ltb port config.sec_port

unfoldable pub is_port_active : ℕ → Runner → Bool
is_port_active port r = elim (get port r.ports) [
  | none ↦ false
  | some p ↦ (r.registry.port_at p).active
]

-- A target set error for each of the devices.
unfoldable pub fail_targets :
    Config → Surroundings → Action Runner (Unit {0}) → List ℕ → Action Runner (Unit {0})
unfolding ◌>>=◌
fail_targets config env drain [] = skip
fail_targets config env drain (o ∷ os) =
    target_set_error config env drain o >> fail_targets config env drain os

-- `_terminate`, of which `shutdown` consists besides the closing of connections.
unfoldable pub terminate_all :
    Config → Surroundings → Action Runner (Unit {0}) → Action Runner (Unit {0})
unfolding ◌>>=◌ fail_targets
terminate_all config env drain = do
  devices ← gets (λ r. get_triggered_devices r.registry)
  fail_targets config env drain devices

unfoldable pub system_port_state :
    Config → Surroundings → Action Runner (Unit {0}) → Bool → Action Runner (Unit {0})
unfolding ◌>>=◌ terminate_all
system_port_state config env drain active = do
  was_active ← gets (λ r. r.system_active)
  when (was_active && not active)
      (do modify (λ r. record r { exception = true }); terminate_all config env drain)
  modify (λ r. record r { system_active = active })

-- The flapping of a port starts when the port of a device with a host goes down.
unfoldable pub start_flapping : Surroundings → ℕ → ℕ → Action Runner (Unit {0})
unfolding ◌>>=◌ on_port
start_flapping env p device = do
  hosted ← gets (λ r. is_some (the_device device r).host)
  flapping ← gets (λ r. truthy (r.registry.port_at p).flapping_start)
  when (hosted && not flapping) (on_port p (λ i. record i { flapping_start = some env.now }))

unfoldable pub port_down : Surroundings → ℕ → Action Runner (Unit {0})
unfolding ◌>>=◌ on_port start_flapping
port_down env p = do
  device ← gets (λ r. get_by_port_info p r.registry)
  maybe device skip (start_flapping env p)
  active ← gets (λ r. (r.registry.port_at p).active)
  flapping ← gets (λ r. truthy (r.registry.port_at p).flapping_start)
  when active (do
    when (is_some device && not flapping) (succeeds env.directs)
    on_port p (λ i. record i { active = false }))

unfoldable pub device_port_state : Surroundings → ℕ → Bool → Action Runner (Unit {0})
unfolding ◌>>=◌ activate_port port_down
device_port_state env port active = do
  known ← gets (λ r. get port r.ports)
  if active then activate_port port else maybe known skip (port_down env)

-- `_handle_port_state`
unfoldable pub handle_port_state :
    Config → Surroundings → Action Runner (Unit {0}) → ℕ → ℕ → Bool → Action Runner (Unit {0})
unfolding ◌>>=◌ system_port_state device_port_state
handle_port_state config env drain dpid port active =
    if is_system_port dpid port
    then system_port_state config env drain active
    else if is_device_port config dpid port
    then device_port_state env port active
    else skip

-- `_handle_port_learn`
unfoldable pub handle_port_learn :
    Config → Surroundings → Action Runner (Unit {0}) → ℕ → ℕ → String → Action Runner (Unit {0})
unfolding ◌>>=◌ on_registry
handle_port_learn config env drain dpid port mac = do
  active ← gets (is_port_active port)
  when (is_device_port config dpid port && active) (do
    p ← gets (λ r. get port r.ports)
    device ← on_registry (Devices.create_if_absent mac p none)
    target_set_trigger config env drain false device)

-- A device that is to be triggered by a remote client gets a port of its own.
unfoldable pub await_remote : ℕ → Action Runner (Unit {0})
unfolding ◌>>=◌ on_registry on_port on_device
await_remote device = do
  waiting ← gets (λ r. (the_device device r).wait_remote)
  when (not waiting) (do
    p ← on_registry Devices.new_port_info
    on_port p (λ i. record i { active = true })
    on_device device (λ d. record d { port = p; wait_remote = true }))

-- `_handle_device_learn`
unfoldable pub handle_device_learn :
    Config → Surroundings → Action Runner (Unit {0}) → String → Option ℕ → Action Runner (Unit {0})
unfolding ◌>>=◌ on_registry on_device await_remote
handle_device_learn config env drain mac vid = do
  device ← on_registry (Devices.create_if_absent mac none vid)
  on_device device (λ d. record d { dhcp_mode = some DhcpMode.external })
  if config.reports_devices
      then await_remote device
      else target_set_trigger config env drain false device

-- `_remote_trigger`
unfoldable pub remote_trigger :
    Config
    → Surroundings
    → Action Runner (Unit {0})
    → ℕ
    → Option ℕ
    → Option ℕ
    → Action Runner (Unit {0})
unfolding ◌>>=◌ on_device on_port
remote_trigger config env drain device device_vlan assigned_vlan = do
  assert (truthy device_vlan && truthy assigned_vlan)
  p ← gets (λ r. (the_device device r).port)
  on_port p (λ i. record i { flapping_start = some 0; active = true })
  on_device device (λ d. record d { vlan = device_vlan; assigned = assigned_vlan })
  target_set_trigger config env drain true device
  gateway ← gets (λ r. is_some (the_device device r).gateway)
  when gateway (succeeds env.directs)

-- The time after which a port that flaps is given up: that of the running test, else the default.
abbrev timeout_or : Option ℕ → ℕ → ℕ
timeout_or none standard = standard
timeout_or (some seconds) standard = seconds

-- One round of `_reap_stale_ports`; `timeout` is the host's `get_port_flap_timeout`.
unfoldable pub reap_port :
    Config → Surroundings → Action Runner (Unit {0}) → (ℕ → Option ℕ) → ℕ → Action Runner (Unit {0})
unfolding ◌>>=◌ on_port
reap_port config env drain timeout device = do
  start ← gets (λ r. (the_port device r).flapping_start)
  when (truthy start) (
      maybe start skip (λ since.
        when (leb (since + timeout_or (timeout device) config.port_flap_timeout) env.now) (do
          target_set_error config env drain device
          p ← gets (λ r. (the_device device r).port)
          on_port p (λ i. record i { flapping_start = some 0 }))))

unfoldable pub reap_ports :
    Config
    → Surroundings
    → Action Runner (Unit {0})
    → (ℕ → Option ℕ)
    → List ℕ
    → Action Runner (Unit {0})
unfolding ◌>>=◌ reap_port
reap_ports config env drain timeout [] = skip
reap_ports config env drain timeout (o ∷ os) =
    reap_port config env drain timeout o >> reap_ports config env drain timeout os

unfoldable pub reap_stale_ports :
    Config → Surroundings → Action Runner (Unit {0}) → (ℕ → Option ℕ) → Action Runner (Unit {0})
unfolding ◌>>=◌ reap_ports
reap_stale_ports config env drain timeout = do
  devices ← gets (λ r. get_triggered_devices r.registry)
  reap_ports config env drain timeout devices
