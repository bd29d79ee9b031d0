-- ===== src/Runner/Activation.antt =====
-- daq/runner.py: from the notice of an address to the activation of a gateway's devices.
use daq.Base.{
  ℕ, String, Bool, true, false, not, ◌&&◌, Option, none, some, List, [], ◌∷◌, if◌then◌else◌,
  is_some, ◌==◌, nat_eq, string_eq, length, all, nonempty,
}
use daq.Base.Dict.{get}
use daq.Base.Action.{
  assertion, attribute, Action, pure, raise, gets, or_raise, skip, assert, when, ◌>>=◌, ◌>>◌,
}
use daq.Devices.{DhcpMode, Device, Registry}
use daq.Devices
use daq.Gateway
use daq.Gateway.{Gateway}
use daq.Host
use daq.Host.{Host, Session}
use daq.Runner.State.{
  Runner, Config, Surroundings, on_gateway_object, on_host_object, on_device, the_device,
}
use daq.Runner.Ports.{handle_device_learn, fail_targets}

-- A method of the host of a device.
unfoldable pub on_device_host : {A : Type 0} → ℕ → Action Session A → Action Runner A
unfolding ◌>>=◌ on_host_object
on_device_host device m = do
  host ← gets (λ r. (the_device device r).host)
  h ← or_raise host attribute
  on_host_object h m

-- The host's `trigger` with the address of its device.
unfoldable pub trigger_device : Config → ℕ → Action Runner Bool
unfolding ◌>>=◌ on_device_host
trigger_device config device = do
  address ← gets (λ r. (the_device device r).ip_info.ip_addr)
  ip ← or_raise address attribute
  on_device_host device (Host.trigger (config.mode_of device) ip)

unfoldable pub trigger_all : Config → List ℕ → Action Runner (Unit {0})
unfolding ◌>>=◌ trigger_device
trigger_all config [] = skip
trigger_all config (o ∷ os) = do
  triggered ← trigger_device config o
  assert triggered
  trigger_all config os

-- `_activate_gateway`
unfoldable pub activate_gateway : Config → ℕ → List ℕ → Action Runner (Unit {0})
unfolding ◌>>=◌ on_gateway_object trigger_all
activate_gateway config g ready_devices =
    on_gateway_object g Gateway.activate >> trigger_all config ready_devices

-- What `_should_activate_target` returns beside the gateway: False, True, or the ready devices.
pub data Readiness : Type 0 where
  not_ready : Readiness
  already : Readiness
  group_ready : List ℕ → Readiness

-- `all` over the ready devices of a test on the one device that gave rise to it.
unfoldable pub all_trigger_ready : Config → ℕ → List ℕ → Runner → Bool
all_trigger_ready config device ready r =
    all
      (λ _. elim (the_device device r).host [
        | none ↦ false
        | some h ↦ Host.trigger_ready (config.mode_of device) (r.host_at h).host
      ])
      ready

-- The end of `_should_activate_target`; `size` is the size of the device's group.
unfoldable pub ready_target : Config → ℕ → ℕ → ℕ → Action Runner Readiness
unfolding ◌>>=◌ on_gateway_object
ready_target config size device g = do
  ready ← on_gateway_object g (Gateway.target_ready device)
  run_tests ← gets (λ r. r.run_tests)
  prepared ← gets (all_trigger_ready config device ready)
  pure (
      if not (size == length ready) && run_tests
      then not_ready
      else if prepared
      then group_ready ready
      else not_ready)

unfoldable pub notify_target : Config → ℕ → ℕ → ℕ → Action Runner Readiness
unfolding ◌>>=◌ on_device_host ready_target
notify_target config size device g = do
  active ← gets (λ r. (r.gateway_at g).activated)
  if active then pure already else (do
    waiting ← on_device_host device Host.notify_activate
    if waiting then ready_target config size device g else pure not_ready)

-- `_should_activate_target`
unfoldable pub should_activate_target : Config → ℕ → ℕ → Action Runner (Option ℕ × Readiness)
unfolding ◌>>=◌ notify_target
should_activate_target config size device = do
  hosted ← gets (λ r. is_some (the_device device r).host)
  gateway ← gets (λ r. (the_device device r).gateway)
  if not hosted then pure (none, not_ready) else (do
    g ← or_raise gateway attribute
    readiness ← notify_target config size device g
    pure (some g, readiness))

-- An empty list of ready devices counts as False.
unfoldable pub act_on : Config → ℕ → Option ℕ × Readiness → Action Runner (Unit {0})
unfolding ◌>>=◌ trigger_device activate_gateway
act_on config device (gateway, not_ready) = skip
act_on config device (gateway, already) = trigger_device config device >> skip
act_on config device (none, group_ready devices) = raise attribute
act_on config device (some g, group_ready devices) =
    when (nonempty devices) (activate_gateway config g devices)

-- `_check_and_activate_gateway`
unfoldable pub check_and_activate_gateway : Config → ℕ → ℕ → Action Runner (Unit {0})
unfolding ◌>>=◌ should_activate_target act_on
check_and_activate_gateway config size device = do
  addressed ← gets (λ r. is_some (the_device device r).ip_info.ip_addr)
  prepared ← gets (λ r. (the_device device r).dhcp_ready)
  when (addressed && prepared)
      (do decision ← should_activate_target config size device; act_on config device decision)

-- `_dhcp_ready_listener`
unfoldable pub dhcp_ready_listener : Config → ℕ → ℕ → Action Runner (Unit {0})
unfolding ◌>>=◌ on_device check_and_activate_gateway
dhcp_ready_listener config size device = do
  on_device device (λ d. record d { dhcp_ready = true })
  check_and_activate_gateway config size device

-- `_terminate_gateway_set`
unfoldable pub terminate_gateway_set :
    Config → Surroundings → Action Runner (Unit {0}) → ℕ → Action Runner (Unit {0})
unfolding ◌>>=◌ fail_targets
terminate_gateway_set config env drain g = do
  devices ← gets (λ r. Devices.get_by_gateway g r.registry)
  assert (nonempty devices)
  fail_targets config env drain devices

-- The `target` of an IP notification; `address_type` is ACK or STATIC, or another.
pub record Target : Type 0 where
  pub mac : String
  pub ip : String
  pub delta : ℕ
  pub assigns : Bool
  pub is_new : Bool
  pub state : String

-- `ip_notify` without an exception.
unfoldable pub ip_notify :
    Config → Surroundings → Action Runner (Unit {0}) → ℕ → Target → Action Runner (Unit {0})
unfolding ◌>>=◌ on_device on_device_host check_and_activate_gateway
ip_notify config env drain size target = when (not (is_ext config.ext_mac)) (do
  when target.is_new (handle_device_learn config env drain target.mac config.native_vlan)
  found ← gets (λ r. get target.mac r.registry.devices)
  device ← or_raise found assertion
  on_device device (λ d. record d {
    ip_info = record {
      ip_addr = some target.ip;
      state = some target.state;
      delta_sec = some target.delta;
    };
  })
  hosted ← gets (λ r. is_some (the_device device r).host)
  when (hosted && target.assigns) (do
    on_device_host device (Host.host_ip_notify target.ip)
    check_and_activate_gateway config size device))
  where
    is_ext : Option String → Bool
    is_ext none = false
    is_ext (some mac) = target.mac == mac
