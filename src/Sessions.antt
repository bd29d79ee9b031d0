-- ===== src/Sessions.antt =====
-- daq/session_server.py (SessionServer): the sessions of remote devices. A session has a queue of replies,
-- which a stream takes off one by one until it is told to close.
pub mod Expired
mod Tests
use daq.Base.{
  ℕ, zero, suc, ◌+◌, ◌-◌, ◌*◌, ◌/◌, ◌%◌, ◌≤◌, ◌<◌, min, String, ◌≡◌, refl, sym, ap, ◌∙◌, subst, ◌≢◌,
  ◌↔◌, ◌⊎◌, inl, inr, Bool, true, false, not, ◌&&◌, ◌||◌, Option, none, some, List, [], ◌∷◌, ◌++◌,
  map, arith, ltb, leb, nat_beq, if◌then◌else◌, ltb→lt, lt→ltb, leb→le, nat_beq_iff, Bool-cases,
  Option-cases, is_some, Eq, ◌==◌, nat_eq, string_eq, beq_self, beq→eq, beq_false, length,
  length-append, select, any, all, nonempty, All, length-select, All-append, count_from, range,
  contains, discard, add, remove_first, IsDistinct, contains-append, contains-discard, contains-add,
  IsDistinct-append_one, IsDistinct-add, IsDistinct-discard, take, drop, take-append, drop-append,
  append_assoc, append_nil, pair_eq,
}
use daq.Base.Dict.{Dict, keys, values, get, has, insert, erase, get-insert, get-erase}
use daq.Base.Action.{
  Error, assertion, missing, attribute, raised, Result, ok, err, Action, pure, raise, gets,
  or_raise, try_except, skip, modify, assert, when, maybe, ◌>>=◌, ◌>>◌,
}
use daq.Base.Action.Preserves.{
  Preserves, Preserves-modify, Preserves-bind, Preserves-maybe, Preserves-after, Preserves-gets,
  Preserves-if, Preserves-raise, preserves_rules,
}

-- What is queued for a device: its endpoint, a result, a heartbeat, or False, which closes the stream.
pub data DeviceResult : Type 0 where
  pending started failed passed : DeviceResult

-- `PortBehavior`
pub data PortBehavior : Type 0 where
  unknown authenticated behavior_failed behavior_passed : PortBehavior

pub data Item : Type 0 where
  endpoint : Item
  result : DeviceResult → Item
  beat : Item
  close : Item

pub record Client : Type 0 where
  pub return_queue : List Item
  pub last_streamed : ℕ

-- `begun` and `ended` are the calls of `on_session` and `on_session_end`, `streamed` what the streams have
-- given to the devices.
pub record Server : Type 0 where
  pub clients : Dict String Client
  pub begun : List String
  pub ended : List String
  pub streamed : List (String × Item)

abbrev pub disconnect_timeout_sec : ℕ
disconnect_timeout_sec = 120

-- `SESSION_DEVICE_RESULT`
unfoldable pub session_device_result : PortBehavior → DeviceResult
session_device_result unknown = pending
session_device_result authenticated = started
session_device_result behavior_failed = failed
session_device_result behavior_passed = passed

abbrev pub put : Item → Client → Client
put item client = record client { return_queue = client.return_queue ++ item ∷ [] }

-- `_send_reply`: a device without a session raises a KeyError.
unfoldable pub send_reply : String → Item → Action Server (Unit {0})
send_reply mac item s = elim (get mac s.clients) [
  | none ↦ (err missing, s)
  | some client ↦ (ok tt, record s { clients = insert mac (put item client) s.clients })
]

unfoldable pub send_device_result : String → PortBehavior → Action Server (Unit {0})
unfolding send_reply session_device_result ◌>>=◌
send_device_result mac device_result = gets (λ s. has mac s.clients) >>= λ known.
    when known (send_reply mac (result (session_device_result device_result)))

unfoldable pub close_stream : String → Action Server (Unit {0})
unfolding send_reply
close_stream mac = send_reply mac close

-- `_init_session` at the time `now`, with whether `on_session` goes through.
unfoldable pub init_session : String → ℕ → Bool → Action Server (Unit {0})
unfolding send_reply send_device_result ◌>>=◌
init_session mac now accepts = gets (λ s. has mac s.clients) >>= λ known.
    assert (not known)
    >> modify (λ s. record s {
      clients = insert mac (record { return_queue = []; last_streamed = now }) s.clients;
    })
    >> send_reply mac endpoint
    >> send_device_result mac authenticated
    >> modify (λ s. record s { begun = s.begun ++ mac ∷ [] })
    >> (if accepts then skip else raise raised)

-- `_reap_session`, with whether `on_session_end` goes through.
unfoldable pub reap_session : String → Bool → Action Server (Unit {0})
unfolding ◌>>=◌
reap_session mac ends = gets (λ s. has mac s.clients) >>= λ known.
    (if known then skip else raise missing)
    >> modify (λ s. record s { ended = s.ended ++ mac ∷ [] })
    >> (if ends then skip else raise raised)
    >> modify (λ s. record s { clients = erase mac s.clients })

-- A round of the loop of `_session_stream`; where the queue is empty the stream waits.
unfoldable pub stream_item : String → ℕ → Bool → Item → Client → Action Server (Unit {0})
unfolding reap_session ◌>>=◌
stream_item mac now ends item client =
    modify (λ s. record s { clients = insert mac client s.clients }) >> elim item [
      | close ↦ reap_session mac ends
      | other ↦ modify (λ s. record s { streamed = s.streamed ++ (mac, other) ∷ [] })
    ]

unfoldable pub stream_round : String → ℕ → Bool → Action Server (Unit {0})
unfolding stream_item
stream_round mac now ends s = elim (get mac s.clients) [
  | none ↦ (err missing, s)
  | some client ↦ (elim client.return_queue [
    | [] ↦ (ok tt, s)
    | item ∷ items ↦
        stream_item mac now ends item (record { return_queue = items; last_streamed = now }) s
  ])
]

-- The device has gone: GeneratorExit ends the stream.
unfoldable pub stream_exit : String → Bool → Action Server (Unit {0})
unfolding reap_session
stream_exit mac ends = reap_session mac ends

-- What a heartbeat puts into the queue of a client.
unfoldable pub heartbeat_item : ℕ → Client → Item
heartbeat_item now client =
    if ltb (now - client.last_streamed) disconnect_timeout_sec then beat else close

-- `send_device_heartbeats`: the loop puts one item into each queue.
unfoldable pub beat_clients : ℕ → Dict String Client → Dict String Client
unfolding heartbeat_item
beat_clients now [] = []
beat_clients now ((mac, client) ∷ clients) =
    (mac, put (heartbeat_item now client) client) ∷ beat_clients now clients

unfoldable pub send_device_heartbeats : ℕ → Server → Server
unfolding beat_clients
send_device_heartbeats now s = record s { clients = beat_clients now s.clients }
