-- ===== src/Modules/Tests.antt =====
-- daq/test_modules: samples.
use daq.Base.{◌≡◌, refl, true, false, none, some, [], ◌∷◌, nat_eq, string_eq, pair_eq}
use daq.Base.Action.{raised, ok}
use daq.Modules.IpAddr.{Range, started}
use daq.Modules.IpAddr
use daq.Modules.External.{complete, failed}
use daq.Modules.External
use daq.Modules.Toggled.{notified, all_calls, notified-all_tests}
use daq.Modules.Finished.{complete_outcome}

abbrev answers : IpAddr.Answers
answers = record {
  connects = true;
  changes_range = true;
  requests_ip = true;
  docker_starts = true;
  docker_ends = true;
  now = 100;
}

abbrev range : Range
range = record { first = "10.20.1.2"; last = "10.20.1.9"; prefix_length = 24 }

notified-all_tests_example :
    let m = notified answers 5 (started (range ∷ []) (some (30, "m"))) in
    (m.tests ≡ [])
    × (m.test_dhcp_ranges ≡ [])
    × (m.ip_callback ≡ none)
    × (m.calls ≡ all_calls (range ∷ []))
    × (m.docker_started ≡ true)
notified-all_tests_example =
    notified-all_tests answers (range ∷ []) (some (30, "m"))
      (record { connects = refl; changes_range = refl; requests_ip = refl; docker_starts = refl })

abbrev external : External.Answers
external = record {
  adds_host = true;
  activates = true;
  opens_log = false;
  induces_initialize = false;
  monitors = true;
  hook_ends = false;
  removes_host = true;
  ends_host = true;
  calls_back = true;
  closes_log = true;
  induces_finalize = false;
  return_code = some 0;
  inverts = false;
}

abbrev idle : External.Module
idle = record {
  host = false;
  pipe = false;
  log = false;
  registered = false;
  running = false;
  monitored = false;
  has_finish_hook = true;
  hooks_run = 0;
  outcomes = [];
}

abbrev running : External.Module
running = record idle {
  host = true;
  pipe = true;
  log = true;
  registered = true;
  running = true;
  monitored = true;
}

complete_outcome_example :
    let (result, n) = complete external running in
    (result ≡ ok tt)
    × (n.outcomes ≡ failed raised ∷ [])
    × (n.pipe ≡ false)
    × (n.monitored ≡ false)
    × (n.registered ≡ true)
    × (n.running ≡ true)
    × (n.host ≡ true)
    × (n.log ≡ true)
complete_outcome_example = complete_outcome external running (refl, refl, refl, refl, refl, refl)
