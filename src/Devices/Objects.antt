-- ===== src/Devices/Objects.antt =====
-- daq/runner.py: the plain containers PortInfo, IpInfo and Device.
use daq.Base.{
  ℕ, String, Bool, true, false, Option, none, some, if◌then◌else◌, ◌==◌, nat_eq, string_eq,
}

-- proto/system_config.proto, `enum DhcpMode`; the value NORMAL is 0, which Python takes for false.
pub data DhcpMode : Type 0 where
  normal static_ip external long_response ip_change : DhcpMode

pub record PortInfo : Type 0 where
  pub active : Bool
  -- None, 0 or the time in seconds
  pub flapping_start : Option ℕ
  pub port_no : Option ℕ

pub record IpInfo : Type 0 where
  pub ip_addr : Option String
  pub state : Option String
  pub delta_sec : Option ℕ

-- `host` and `gateway` refer to objects of those classes, `port` to a PortInfo.
pub record Device : Type 0 where
  pub mac : String
  pub host : Option ℕ
  pub gateway : Option ℕ
  pub group : Option String
  pub port : ℕ
  pub dhcp_ready : Bool
  pub dhcp_mode : Option DhcpMode
  pub ip_info : IpInfo
  pub vlan : Option ℕ
  pub set_id : Option ℕ
  pub assigned : Option ℕ
  pub wait_remote : Bool

unfoldable pub fresh_port : PortInfo
fresh_port = record { active = false; flapping_start = none; port_no = none }

unfoldable pub fresh_ip : IpInfo
fresh_ip = record { ip_addr = none; state = none; delta_sec = none }

unfoldable pub fresh_device : String → ℕ → Option ℕ → Device
fresh_device mac port vlan = record {
  mac = mac;
  host = none;
  gateway = none;
  group = none;
  port = port;
  dhcp_ready = false;
  dhcp_mode = none;
  ip_info = fresh_ip;
  vlan = vlan;
  set_id = none;
  assigned = none;
  wait_remote = false;
}

-- A write to the heap.
abbrev pub update {ℓ} : {A : Type ℓ} → (ℕ → A) → ℕ → A → ℕ → A
update heap o v p = if p == o then v else heap p

-- The truth value of None, 0 or a number.
abbrev pub truthy : Option ℕ → Bool
truthy none = false
truthy (some n) = if n == 0 then false else true

abbrev pub is_external : Option DhcpMode → Bool
is_external (some DhcpMode.external) = true
is_external (some DhcpMode.normal) = false
is_external (some DhcpMode.static_ip) = false
is_external (some DhcpMode.long_response) = false
is_external (some DhcpMode.ip_change) = false
is_external none = false

-- `x == o` for a variable that is None or refers to an object.
abbrev pub is_reference : ℕ → Option ℕ → Bool
is_reference o none = false
is_reference o (some p) = p == o
