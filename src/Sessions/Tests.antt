-- ===== src/Sessions/Tests.antt =====
-- daq/session_server.py: samples.
use daq.Base.{◌≡◌, refl, none, [], ◌∷◌, arith, nat_eq, string_eq, pair_eq}
use daq.Base.Dict.{get}
use daq.Sessions.{endpoint, Client, Server, send_device_heartbeats}
use daq.Sessions.Expired.{rounds, send_device_heartbeats-reaps}

abbrev client : Client
client = record { return_queue = endpoint ∷ []; last_streamed = 100 }

abbrev server : Server
server = record {
  clients = ("9a:02", client) ∷ ("9a:01", client) ∷ [];
  begun = [];
  ended = [];
  streamed = [];
}

send_device_heartbeats_example :
    let t = rounds "9a:01" 300 2 (send_device_heartbeats 300 server) in
    (get "9a:01" t.clients ≡ none) × (t.ended ≡ "9a:01" ∷ [])
send_device_heartbeats_example =
    send_device_heartbeats-reaps "9a:01" 300 client server refl (omega arith)
