-- ===== src/Runner/State.antt =====
-- daq/runner.py: the state of the runner, and calls of the objects that it holds.
use daq.Base.{ℕ, String, Bool, Option, none, some, List, if◌then◌else◌, nat_eq, string_eq, length}
use daq.Base.Dict.{Dict}
use daq.Base.Action.{raised, ok, Action, or_raise, ◌>>=◌}
use daq.Devices.{DhcpMode, Device, PortInfo, Registry, update, get_triggered_devices}
use daq.Gateway.{Gateway, Answers}
use daq.Host.{Host, Session, Call, Recorded}

-- A ConnectedHost with the gateway and the device that it refers to.
pub record HostObject : Type 0 where
  pub host : Host
  pub gateway : ℕ
  pub device : ℕ

pub record Runner : Type 0 where
  -- `_devices`
  pub registry : Registry
  pub gateway_at : ℕ → Gateway
  pub gateway_count : ℕ
  pub host_at : ℕ → HostObject
  pub host_count : ℕ
  -- a set: the order of the list is arbitrary
  pub gateway_sets : List ℕ
  pub native_gateway : Option ℕ
  pub ports : Dict ℕ ℕ
  pub target_set_queue : List ℕ
  pub result_sets : Dict ℕ (Dict String Recorded)
  pub system_active : Bool
  pub run_tests : Bool
  pub linger_exit : ℕ
  -- whether `exception` is set
  pub exception : Bool
  pub run_count : ℕ
  -- what the hosts ask of the runner
  pub calls : List Call

-- The configuration; a `max_hosts` of none is no limit.
pub record Config : Type 0 where
  pub max_hosts : Option ℕ
  pub fail_mode : Bool
  pub result_linger : Bool
  pub run_limit : ℕ
  pub single_shot : Bool
  pub port_flap_timeout : ℕ
  -- the DHCP mode that the configuration of each device gives
  pub mode_of : ℕ → DhcpMode
  -- `network.ext_mac` and the native vlan
  pub ext_mac : Option String
  pub native_vlan : Option ℕ
  -- whether there is a `_device_result_handler`
  pub reports_devices : Bool
  -- `network.sec_dpid` and `network.sec_port`
  pub sec_dpid : Option ℕ
  pub sec_port : ℕ

-- What the network and the other components answer while a target is activated or ended.
pub record Surroundings : Type 0 where
  -- `network.device_group_for`
  pub group : String
  pub answers : Answers
  pub gateway_ends : Bool × Bool
  -- whether the native gateway has the expected interface
  pub native_interface : Bool
  -- whether `stop_dhcp_response` goes through
  pub stops_dhcp : Bool
  -- the host that the constructor makes, if it does not raise
  pub made_host : Option Host
  -- whether the traffic can be directed
  pub directs : Bool
  pub host_ends : Bool
  -- the time in seconds
  pub now : ℕ

unfoldable pub on_registry : {A : Type 0} → Action Registry A → Action Runner A
on_registry m r = let (x, d) = m r.registry in (x, record r { registry = d })

unfoldable pub on_device : ℕ → (Device → Device) → Action Runner (Unit {0})
on_device o f r = (
  ok tt,
  record r {
    registry = record (r.registry) {
      device_at = update r.registry.device_at o (f (r.registry.device_at o));
    };
  },
)

unfoldable pub on_port : ℕ → (PortInfo → PortInfo) → Action Runner (Unit {0})
on_port p f r = (
  ok tt,
  record r {
    registry = record (r.registry) {
      port_at = update r.registry.port_at p (f (r.registry.port_at p));
    };
  },
)

unfoldable pub on_gateway_object : {A : Type 0} → ℕ → Action Gateway A → Action Runner A
on_gateway_object g m r =
    let (x, gateway) = m (r.gateway_at g) in
    (x, record r { gateway_at = update r.gateway_at g gateway })

-- A method of the host, which may change its gateway and its device.
unfoldable pub on_host_object : {A : Type 0} → ℕ → Action Session A → Action Runner A
on_host_object h m r =
    let o = r.host_at h in
    let (x, s) = m (record {
      host = o.host;
      gateway = r.gateway_at o.gateway;
      device = r.registry.device_at o.device;
      calls = r.calls;
    }) in
    (
      x,
      record r {
        host_at = update r.host_at h (record o { host = s.host });
        gateway_at = update r.gateway_at o.gateway s.gateway;
        registry = record (r.registry) {
          device_at = update r.registry.device_at o.device s.device;
        };
        calls = s.calls;
      },
    )

abbrev pub the_device : ℕ → Runner → Device
the_device o r = r.registry.device_at o

abbrev pub the_port : ℕ → Runner → PortInfo
the_port o r = r.registry.port_at (r.registry.device_at o).port

abbrev pub succeeds : Bool → Action Runner (Unit {0})
unfolding ◌>>=◌
succeeds b = or_raise (if b then some tt else none) raised

abbrev pub number_triggered : Runner → ℕ
number_triggered r = length (get_triggered_devices r.registry)
