-- ===== src/Host/Machine.antt =====
-- daq/host.py: the record of a host, _state_transition, record_result and the capture of traffic.
use daq.Base.{
  ℕ, String, Bool, true, false, not, ◌||◌, Option, none, some, List, [], ◌∷◌, ◌++◌, nat_beq,
  if◌then◌else◌, is_some, nat_eq, string_eq,
}
use daq.Base.Dict.{Dict, insert}
use daq.Base.Action.{ok, Action, gets, skip, assert, when, maybe, ◌>>=◌, ◌>>◌}
use daq.Devices.{Device}
use daq.Gateway.{Gateway}

-- `_STATE`
pub data Phase : Type 0 where
  errored ready init waiting base monitor next testing finished hold terminated : Phase

abbrev pub phase_code : Phase → ℕ
phase_code errored = 0
phase_code ready = 1
phase_code init = 2
phase_code waiting = 3
phase_code base = 4
phase_code monitor = 5
phase_code next = 6
phase_code testing = 7
phase_code finished = 8
phase_code hold = 9
phase_code terminated = 10

abbrev pub phase_beq : Phase → Phase → Bool
phase_beq a b = nat_beq (phase_code a) (phase_code b)

-- `MODE`
pub data Mode : Type 0 where
  m_init m_prep m_hold m_conf m_exec m_fine m_nope m_done m_term m_long m_merr : Mode

pub record Recorded : Type 0 where
  pub mode : Option Mode
  pub code : Option ℕ
  pub exception : Bool

-- The bound method in `timeout_handler`.
pub data Handler : Type 0 where
  aux_module main_module external_dhcp : Handler

pub data Call : Type 0 where
  ip_notify : String → Call
  dhcp_listeners : Call
  change_dhcp_response : Call
  discover_host : Call
  target_set_error : Call
  target_set_complete : Call

pub record Host : Type 0 where
  pub phase : Phase
  pub test_list : List String
  pub enabled_tests : List String
  pub remaining_tests : List String
  pub no_test : Bool
  pub monitor_scan_sec : ℕ
  pub static_ip : Option String
  pub test_name : Option String
  pub test_host : Option String
  pub test_port : Option ℕ
  -- the capture `_monitor_ref`, and whether its stream is open
  pub capture : Option Bool
  pub timeout_handler : Option Handler
  pub target_ip : Option String
  pub all_ips : List String
  pub results : Dict String Recorded

pub record Session : Type 0 where
  pub host : Host
  pub gateway : Gateway
  pub device : Device
  pub calls : List Call

unfoldable pub on_host : (Host → Host) → Action Session (Unit {0})
on_host f s = (ok tt, record s { host = f s.host })

-- A method of the gateway.
unfoldable pub on_gateway : {A : Type 0} → Action Gateway A → Action Session A
on_gateway m s = let (r, g) = m s.gateway in (r, record s { gateway = g })

unfoldable pub call : Call → Action Session (Unit {0})
call c s = (ok tt, record s { calls = s.calls ++ c ∷ [] })

-- `_state_transition` with no expected state.
unfoldable pub transition : Phase → Action Session (Unit {0})
transition target = do
  phase ← gets (λ s. s.host.phase)
  assert (not (phase_beq phase terminated))
  on_host (λ h. record h { phase = target })

-- `_state_transition(target, expected)`
unfoldable pub transition_from : Phase → Phase → Action Session (Unit {0})
transition_from target expected = do
  phase ← gets (λ s. s.host.phase)
  assert (phase_beq phase expected)
  transition target

-- `_record_result`: a result without a name is published and not kept.
unfoldable pub keep_result : Option String → Recorded → Action Session (Unit {0})
keep_result none result = skip
keep_result (some name) result = on_host (λ h. record h { results = insert name result h.results })

-- `record_result` also makes the name the current one.
unfoldable pub record_result : Option String → Recorded → Action Session (Unit {0})
record_result name result = on_host (λ h. record h { test_name = name }) >> keep_result name result

abbrev pub moded : Mode → Recorded
moded m = record { mode = some m; code = none; exception = false }

abbrev pub failed : Recorded
failed = record { mode = none; code = none; exception = true }

unfoldable pub monitor_scan : Action Session (Unit {0})
monitor_scan = do
  active ← gets (λ s. is_some s.host.capture)
  assert (not active)
  on_host (λ h. record h { capture = some true })

unfoldable pub monitor_cleanup : Bool → Action Session (Unit {0})
monitor_cleanup forget = do
  capture ← gets (λ s. s.host.capture)
  maybe capture skip (λ active. do
    assert (if forget then active else not active)
    on_host (λ h. record h { capture = none }))

unfoldable pub monitor_error : Bool → Action Session (Unit {0})
monitor_error forget = do
  monitor_cleanup forget
  name ← gets (λ s. s.host.test_name)
  record_result name failed
  transition errored
  call target_set_error

unfoldable pub is_running : Host → Bool
is_running h = not (phase_beq h.phase errored || phase_beq h.phase finished)

unfoldable pub is_ready : Host → Bool
is_ready h = phase_beq h.phase ready

unfoldable pub notify_activate : Action Session Bool
notify_activate = do
  paused ← gets (λ s. is_ready s.host)
  when paused (keep_result (some "startup") (moded m_hold))
  gets (λ s. phase_beq s.host.phase waiting)
