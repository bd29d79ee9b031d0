-- ===== src/Host/Running.antt =====
-- daq/host.py: a run as a sequence of callbacks, in whatever order the event loop makes them.
use daq.Base.{ℕ, String, Bool, false, Option, List, [], ◌∷◌, nat_eq, string_eq, pair_eq}
use daq.Host
use daq.Host.{Session, Phase}
use daq.Devices.{DhcpMode}
use daq.Host.Transitions.{
  idle_handler-Past, notify_activate-Past, ip_notify-Past, ip_notify-Past, notify_activate-Past,
  idle_handler-Past,
}

-- The calls that the runner, the event loop and the configuration make of a host, with what the
-- environment answers.
pub data Event : Type 0 where
  initialized : Event
  control : (paused : Bool) → Event
  idle : (mode : DhcpMode) (starts : Bool) (pings : Option (Bool × Bool)) → Event
  activation_query : Event
  notified : (ip : String) → Event
  triggered : (mode : DhcpMode) (ip : String) → Event
  module_ended : (starts : Bool) (code : Option ℕ) (exception : Bool) → Event
  capture_ended : (early starts : Bool) → Event
  capture_failed : Event
  beat : (expired starts : Bool) → Event
  ended : (ends again : Bool) → Event

-- The session after the call; an exception goes to the caller.
unfoldable pub step : Event → Session → Session
step initialized s = (Host.initialize s).1
step (control paused) s = (Host.control_updated paused s).1
step (idle mode starts pings) s = (Host.idle_handler mode starts pings s).1
step activation_query s = (Host.notify_activate s).1
step (notified ip) s = (Host.host_ip_notify ip s).1
step (triggered mode ip) s = (Host.trigger mode ip s).1
step (module_ended starts code exception) s = (Host.module_callback starts code exception s).1
step (capture_ended early starts) s = (Host.capture_hangup early starts s).1
step capture_failed s = (Host.monitor_error false s).1
step (beat expired starts) s = (Host.heartbeat expired starts s).1
step (ended ends again) s = (Host.terminate ends again s).1

unfoldable pub run : List Event → Session → Session
run [] s = s
run (e ∷ es) s = run es (step e s)
