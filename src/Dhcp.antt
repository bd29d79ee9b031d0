-- ===== src/Dhcp.antt =====
-- daq/dhcp_monitor.py (DhcpMonitor): what the lines of the traffic dump say of the addresses that devices
-- get. The matching of a line is an argument.
pub mod Exchange
mod Tests
use daq.Base.{
  ℕ, zero, suc, ◌+◌, ◌-◌, ◌*◌, ◌/◌, ◌%◌, ◌≤◌, ◌<◌, min, String, ◌≡◌, refl, sym, ap, ◌∙◌, subst, ◌≢◌,
  ◌↔◌, ◌⊎◌, inl, inr, Bool, true, false, not, ◌&&◌, ◌||◌, Option, none, some, List, [], ◌∷◌, ◌++◌,
  map, arith, ltb, leb, nat_beq, if◌then◌else◌, ltb→lt, lt→ltb, leb→le, nat_beq_iff, Bool-cases,
  Option-cases, is_some, Eq, ◌==◌, nat_eq, string_eq, beq_self, beq→eq, beq_false, length,
  length-append, select, any, all, nonempty, All, length-select, All-append, count_from, range,
  contains, discard, add, remove_first, IsDistinct, contains-append, contains-discard, contains-add,
  IsDistinct-append_one, IsDistinct-add, IsDistinct-discard, take, drop, take-append, drop-append,
  append_assoc, append_nil, pair_eq,
}
use daq.Base.Dict.{Dict, keys, values, get, has, insert, erase, get-insert, get-erase}
use daq.Base.Action.{
  Error, assertion, missing, attribute, raised, Result, ok, err, Action, pure, raise, gets,
  or_raise, try_except, skip, modify, assert, when, maybe, ◌>>=◌, ◌>>◌,
}
use daq.Base.Action.Preserves.{
  Preserves, Preserves-modify, Preserves-bind, Preserves-maybe, Preserves-after, Preserves-gets,
  Preserves-if, Preserves-raise, Preserves-assert, Preserves-try, preserves_rules,
}

-- The alternatives of DHCP_PATTERN that a line matches, with the groups.
pub data DhcpLine : Type 0 where
  start : DhcpLine
  ip_line mac_line message_line : String → DhcpLine
  arp_line : String → String → DhcpLine
  other_line : DhcpLine

pub data LeaseMode : Type 0 where
  done long : LeaseMode

-- The target that the callback is given.
pub record Lease : Type 0 where
  pub dhcp_type : String
  pub ip : String
  pub mac : String
  pub delta : ℕ

pub data Reported : Type 0 where
  lease : LeaseMode → Lease → Reported
  failure : Error → Reported

-- `has_log` and `has_traffic` say whether `dhcp_log` and `dhcp_traffic` are set; `monitored` whether the
-- runner watches the stream.
pub record Monitor : Type 0 where
  pub target_ip : Option String
  pub target_mac : Option String
  pub device_dhcps : Dict String ℕ
  pub scan_start : ℕ
  pub has_log : Bool
  pub has_traffic : Bool
  pub monitored : Bool
  pub reports : List Reported

abbrev pub dhcp_threshhold_sec : ℕ
dhcp_threshhold_sec = 80

-- `start`
unfoldable pub start_monitor : ℕ → Bool → Monitor → Monitor
start_monitor now has_log_file m = record m {
  has_log = has_log_file || m.has_log;
  scan_start = now;
  has_traffic = true;
  monitored = true;
}

-- The time since the last acknowledgement for the address, or since the start.
unfoldable pub time_taken : ℕ → String → Monitor → ℕ
time_taken now mac m = elim (get mac m.device_dhcps) [
  | none ↦ now - m.scan_start
  | some last ↦ now - last
]

abbrev pub lease_mode : Bool → LeaseMode
lease_mode true = long
lease_mode false = done

unfoldable pub report_lease : ℕ → String → String → String → Monitor → Monitor
unfolding time_taken
report_lease now dhcp_type ip mac m =
    let delta = time_taken now mac m in
    let is_dhcp = not (dhcp_type == "STATIC") in
    record m {
      device_dhcps = if dhcp_type == "ACK" then insert mac now m.device_dhcps else m.device_dhcps;
      reports =
          m.reports
          ++ lease (lease_mode (is_dhcp && ltb dhcp_threshhold_sec delta))
              (record { dhcp_type = dhcp_type; ip = ip; mac = mac; delta = delta })
            ∷ [];
    }

-- `accepts` says whether the callback goes through; if it raises it has been called all the same.
unfoldable pub dhcp_complete : Bool → ℕ → String → Action Monitor (Unit {0})
unfolding report_lease ◌>>=◌
dhcp_complete accepts now dhcp_type =
    when (dhcp_type == "ACK" || (dhcp_type == "Offer" || dhcp_type == "STATIC")) (
      gets (λ m. m) >>= λ m. or_raise m.target_ip assertion >>= λ ip.
      or_raise m.target_mac assertion >>= λ mac.
      modify (report_lease now dhcp_type ip mac) >> (if accepts then skip else raise raised))

unfoldable pub dhcp_line : Bool → ℕ → DhcpLine → Action Monitor (Unit {0})
unfolding dhcp_complete ◌>>=◌
dhcp_line accepts now start = modify (λ m. record m { target_mac = none; target_ip = none })
dhcp_line accepts now (ip_line ip) = gets (λ m. m.target_ip) >>= λ before.
    assert (not (is_some before)) >> modify (λ m. record m { target_ip = some ip })
dhcp_line accepts now (mac_line mac) = gets (λ m. m.target_mac) >>= λ before.
    assert (not (is_some before)) >> modify (λ m. record m { target_mac = some mac })
dhcp_line accepts now (message_line dhcp_type) = dhcp_complete accepts now dhcp_type
dhcp_line accepts now (arp_line mac ip) =
    modify (λ m. record m { target_mac = some mac; target_ip = some ip })
    >> dhcp_complete accepts now "STATIC"
dhcp_line accepts now other_line = skip

unfoldable pub cleanup : Monitor → Monitor
cleanup m = record m {
  has_log = false;
  has_traffic = false;
  monitored = if m.has_traffic then false else m.monitored;
}

unfoldable pub dhcp_error : Error → Monitor → Monitor
unfolding cleanup
dhcp_error x m = let n = cleanup m in record n { reports = n.reports ++ failure x ∷ [] }

-- The stream monitor forgets a stream that hangs up before it calls.
unfoldable pub dhcp_hangup : Monitor → Monitor
unfolding dhcp_error
dhcp_hangup m = dhcp_error raised (record m { has_traffic = false; monitored = false })

-- A line as the stream monitor handles it: an exception goes to `_dhcp_error`, and a stream that is not
-- watched any more gives no lines.
unfoldable pub receive_line : Bool → ℕ → DhcpLine → Monitor → Monitor
unfolding dhcp_line dhcp_error
receive_line accepts now line m =
    let (r, n) = dhcp_line accepts now line m in
    if m.monitored then elim r [ ok _ ↦ n | err x ↦ dhcp_error x n ] else m

unfoldable pub receive_lines : Bool → ℕ → List DhcpLine → Monitor → Monitor
unfolding receive_line
receive_lines accepts now [] m = m
receive_lines accepts now (line ∷ lines) m =
    receive_lines accepts now lines (receive_line accepts now line m)
