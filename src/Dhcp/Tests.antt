-- ===== src/Dhcp/Tests.antt =====
-- daq/dhcp_monitor.py: samples.
use daq.Base.{◌≡◌, refl, true, none, some, [], ◌∷◌, nat_eq, string_eq, pair_eq}
use daq.Dhcp.{Monitor, time_taken}

abbrev sample_monitor : Monitor
sample_monitor = record {
  target_ip = some "10.20.0.7";
  target_mac = none;
  device_dhcps = ("9a:01", 90) ∷ [];
  scan_start = 50;
  has_log = true;
  has_traffic = true;
  monitored = true;
  reports = [];
}

time_taken_sample : time_taken 100 "9a:01" sample_monitor ≡ 10
unfolding time_taken
time_taken_sample = refl
