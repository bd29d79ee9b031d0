-- ===== src/Host/Tests.antt =====
-- daq/host.py: samples.
use daq.Base.{
  ◌≡◌, refl, true, false, none, some, List, [], ◌∷◌, ◌++◌, arith, if◌then◌else◌, ◌==◌, nat_eq,
  string_eq, pair_eq,
}
use daq.Devices.{DhcpMode, fresh_device}
use daq.Gateway.{Gateway, container_gateway}
use daq.Host.{Session, Phase, ready}
use daq.Config.Tree.{
  Text, Fields, text, mapping, empty, field, codes, lookup, find, assign, text_eq,
}
use daq.Config.Files.{Disk, read_config, merge_config}
use daq.Config.Flat.{done, failed, outdated}
use daq.Config.Merge.{deep_merge_dict}
use daq.Config.Includes.{Chain, last}
use daq.Host.Settings.{Folders, load_module_config, dev_config_updated, dev_config_updated_fails}
use daq.Host.Layers.{load_module_config-port}
use daq.Host.Running.{Event, initialized, idle, triggered, module_ended, ended}

abbrev gateway : Gateway
gateway = record {
  kind = container_gateway;
  name = "gw01";
  port_set = 1;
  is_native = false;
  host = true;
  dummy = true;
  fake_target = true;
  targets = ("9a:01", 0) ∷ [];
  test_ports = [];
  ready = [];
  activated = false;
  result_linger = false;
  dhcp_monitor = true;
  scan_monitor = none;
}

abbrev session : Phase → Session
session phase = record {
  host = record {
    phase = phase;
    test_list = "ping" ∷ "nmap" ∷ [];
    enabled_tests = "ping" ∷ [];
    remaining_tests = "ping" ∷ [];
    no_test = false;
    monitor_scan_sec = 0;
    static_ip = none;
    test_name = none;
    test_host = none;
    test_port = none;
    capture = none;
    timeout_handler = none;
    target_ip = none;
    all_ips = [];
    results = [];
  };
  gateway = gateway;
  device = fresh_device "9a:01" 0 none;
  calls = [];
}

-- A whole run: the host is started, gets its address, runs its only test and is terminated.
abbrev whole_run : List Event
whole_run =
    initialized
    ∷ idle DhcpMode.normal true none
    ∷ triggered DhcpMode.normal "10.20.0.5"
    ∷ idle DhcpMode.normal true (some (true, true))
    ∷ module_ended true (some 0) false
    ∷ ended true true
    ∷ []

abbrev port_file : Text
port_file = codes "p/port_config.json"

abbrev port_config : Fields
port_config = field (codes "mode") (text (codes "x")) empty

-- A disk with the configuration of one port.
abbrev disk : Disk
disk = record {
  exists = λ file. file == port_file;
  lines = λ file. none;
  yaml = λ file. if file == port_file then some (mapping port_config) else none;
  abspath = λ file. file;
  dirname = λ file. [];
  join = λ directory name. directory ++ name;
}

abbrev folders : Folders
folders = record { site_path = []; device_base = none; port_base = some (codes "p/") }

read-port_sample : read_config disk port_file ≡ done port_config
unfolding read_config
read-port_sample = refl

merge-port_sample : merge_config 1 disk empty port_file [] ≡ done port_config
unfolding merge_config deep_merge_dict assign
merge-port_sample = refl

load-port_sample : load_module_config 1 disk folders empty none ≡ done port_config
unfolding load_module_config
load-port_sample = merge-port_sample

port-Chain : Chain disk [] port_file (port_config ∷ [])
unfolding lookup
port-Chain = last refl read-port_sample refl

load_module_config-port_example :
    find (codes "mode" ∷ []) (mapping port_config) ≡ some (text (codes "x"))
load_module_config-port_example =
    load_module_config-port 1 disk folders empty none port_config port_config (codes "p/")
      (codes "mode" ∷ []) (text (codes "x")) load-port_sample refl refl port-Chain (omega arith)
      (unfold lookup in (refl, tt, tt)) (unfold find in refl) refl

dev_config_updated_fails_example :
    dev_config_updated 1 disk
      (record folders { device_base = some (codes "d/") })
      (codes "d/")
      port_config
      empty
      none
    ≡ failed outdated
dev_config_updated_fails_example =
    dev_config_updated_fails 1 disk (record folders { device_base = some (codes "d/") })
      (codes "d/") port_config empty none refl
