-- ===== src/Dot1x/Tests.antt =====
-- subset/dot1x/authenticator: samples.
use daq.Base.{◌<◌, ◌≡◌, refl, true, false, none, some, [], ◌∷◌, arith, nat_eq, string_eq, pair_eq}
use daq.Base.Dict.{get}
use daq.Dot1x.Modules.{
  other_message, RadiusPacketInfo, EapModule, RadiusModule, encode_radius_response,
}
use daq.Dot1x.Machine.{AuthStateMachine, Authenticator, supplicant, eap_retry}
use daq.Dot1x.Authenticator.{receive, eap_request}
use daq.Dot1x.Packets.{encode_all, encode_radius_response-packet_id}
use daq.Dot1x.Silent.{heartbeats, IsWaiting, IsFailed, heartbeats-IsFailed}
use daq.Dot1x.Settled.{IsSettled}
use daq.Dot1x.Recorded.{receive-IsSettled}

abbrev eap_module : EapModule
eap_module = record {
  authenticator_mac = 1 ∷ 128 ∷ 194 ∷ 0 ∷ 0 ∷ 3 ∷ [];
  outbound_message_queue = [];
  shut_down = false;
  sent = [];
}

abbrev radius_module : RadiusModule
radius_module = record {
  outbound_message_queue = [];
  next_radius_id = 255;
  packet_id_to_mac = [];
  packet_id_to_request_authenticator = [];
  shut_down = false;
  sent = [];
}

abbrev packet : RadiusPacketInfo
packet = record {
  payload = other_message 1;
  src_mac = "9a:01";
  identity = some "user";
  state = none;
  port_id = 3;
}

abbrev machine : AuthStateMachine
machine = record {
  state = some supplicant;
  src_mac = "9a:01";
  identity = none;
  authentication_mac = 1 ∷ 128 ∷ 194 ∷ 0 ∷ 0 ∷ 3 ∷ [];
  radius_state = none;
  idle_time = 9;
  max_retry_count = 3;
  current_timeout = some 109;
  retry = some (eap_retry none);
  current_retries = some 2;
}

abbrev authenticator : Authenticator
authenticator = record {
  state_machines = ("9a:01", machine) ∷ [];
  results = [];
  eap_module = eap_module;
  radius_module = radius_module;
  timer_runs = true;
  idle_time = 9;
  max_retry_count = 3;
  current_timeout = some 280;
}

encode_radius_response_example :
    let (id, s) = encode_radius_response 77 packet radius_module in
    (id < 256)
    × (s.next_radius_id < 256)
    × (get id (encode_all ((78, packet) ∷ []) s).packet_id_to_mac ≡ some ("9a:01", 3))
    × (get id (encode_all ((78, packet) ∷ []) s).packet_id_to_request_authenticator ≡ some 77)
encode_radius_response_example =
    encode_radius_response-packet_id 77 packet ((78, packet) ∷ []) radius_module (omega arith)
      (omega arith)

waiting : IsWaiting machine 109 2 authenticator
waiting = record { alone = refl; runs = refl; timed = refl; counted = refl; retried = refl }

heartbeats_example : IsFailed "9a:01" (heartbeats (110 ∷ 120 ∷ []) authenticator)
heartbeats_example =
    heartbeats-IsFailed (110 ∷ 120 ∷ []) 109 2 machine authenticator waiting
      (omega arith, (omega arith, tt)) refl (omega arith)

abbrev ended : Authenticator
ended = record authenticator { results = ("9a:02", true) ∷ [] }

ended-IsSettled : IsSettled "9a:02" true ended
ended-IsSettled = record { recorded = refl; gone = refl; keyed = (refl, tt) }

receive-IsSettled_example :
    IsSettled "9a:02" true (receive 100 (eap_request "9a:02" (other_message 1) true) ended).1
receive-IsSettled_example =
    receive-IsSettled "9a:02" true 100 (eap_request "9a:02" (other_message 1) true) ended
      ended-IsSettled
