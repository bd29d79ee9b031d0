-- ===== src/Sessions/Expired.antt =====
-- daq/session_server.py: a session that is not read any more ends.
use daq.Base.{
  ℕ, zero, suc, ◌+◌, ◌≤◌, String, ◌≡◌, refl, ap, ◌∙◌, subst, inl, inr, Bool, true, false, none,
  some, List, [], ◌∷◌, ◌++◌, arith, Bool-cases, nat_eq, string_eq, beq_self, length, length-append,
  any, pair_eq,
}
use daq.Base.Dict.{Dict, get, insert, get-insert, get-erase}
use daq.Sessions.{
  endpoint, result, beat, Item, close, Client, Server, put, stream_round, send_device_heartbeats,
  beat_clients, heartbeat_item, disconnect_timeout_sec,
}

-- The state after some rounds of the stream of a device.
abbrev pub rounds : String → ℕ → ℕ → Server → Server
rounds mac now zero s = s
rounds mac now (suc n) s = rounds mac now n (stream_round mac now true s).1

abbrev is_close : Item → Bool
is_close close = true
is_close _ = false

rounds-gone :
    (mac : String) (now n : ℕ) (s : Server) → get mac s.clients ≡ none → rounds mac now n s ≡ s
unfolding stream_round
rounds-gone mac now zero s gone = refl
rounds-gone mac now (suc n) s gone = ground (arith, rounds-gone mac now n s gone)

round-close :
    (mac : String) (now : ℕ) (items : List Item) (last : ℕ) (s : Server)
    → get mac s.clients ≡ some (record { return_queue = close ∷ items; last_streamed = last })
    → let t = (stream_round mac now true s).1 in
      (get mac t.clients ≡ none) × (t.ended ≡ s.ended ++ mac ∷ [])
unfolding stream_round
round-close mac now items last s found = ground (
  arith,
  beq_self mac,
  get-insert mac mac (record { return_queue = items; last_streamed = now }) s.clients,
  get-erase mac mac (insert mac (record { return_queue = items; last_streamed = now }) s.clients),
)

round-item :
    (mac : String) (now : ℕ) (item : Item) (items : List Item) (last : ℕ) (s : Server)
    → get mac s.clients ≡ some (record { return_queue = item ∷ items; last_streamed = last })
    → is_close item ≡ false
    → let t = (stream_round mac now true s).1 in
      (get mac t.clients ≡ some (record { return_queue = items; last_streamed = now }))
      × (t.ended ≡ s.ended)
unfolding stream_round
round-item mac now item items last s found other = ground (
  arith,
  beq_self mac,
  get-insert mac mac (record { return_queue = items; last_streamed = now }) s.clients,
)

close-eq : (item : Item) → is_close item ≡ true → item ≡ close
close-eq close h = refl
close-eq endpoint h = ground arith
close-eq (result r) h = ground arith
close-eq beat h = ground arith

rounds-closed :
    (items : List Item) (mac : String) (now last : ℕ) (s : Server)
    → get mac s.clients ≡ some (record { return_queue = items; last_streamed = last })
    → any is_close items ≡ true
    → let t = rounds mac now (length items) s in
      (get mac t.clients ≡ none) × (t.ended ≡ s.ended ++ mac ∷ [])
rounds-closed [] mac now last s found closed = ground arith
rounds-closed (item ∷ items) mac now last s found closed = elim (Bool-cases (is_close item)) [
  | inl this ↦
      let r = round-close mac now items last s (
        found
        ∙ ap (λ i. some (record { return_queue = i ∷ items; last_streamed = last }))
            (close-eq item this)) in
      let g = rounds-gone mac now (length items) (stream_round mac now true s).1 r.0 in rw g r
  | inr other ↦
      let r = round-item mac now item items last s found other in
      let k = rounds-closed items mac now now (stream_round mac now true s).1 r.0 (ground arith) in
      (k.0, k.1 ∙ ap (λ l. l ++ mac ∷ []) r.1)
]

beat-get :
    (mac : String) (now : ℕ) (client : Client) (clients : Dict String Client)
    → get mac clients ≡ some client
    → get mac (beat_clients now clients) ≡ some (put (heartbeat_item now client) client)
unfolding beat_clients
beat-get mac now client [] found = ground arith
beat-get mac now client ((k, c) ∷ clients) found = ground (arith, beat-get mac now client clients)

any-append_close : (items : List Item) → any is_close (items ++ close ∷ []) ≡ true
any-append_close [] = refl
any-append_close (item ∷ items) = ground (arith, any-append_close items)

stale-close :
    (now : ℕ) (client : Client)
    → client.last_streamed + disconnect_timeout_sec ≤ now
    → heartbeat_item now client ≡ close
unfolding heartbeat_item
stale-close now client stale = ground arith

-- A session that is not read any more ends. If nothing has been streamed to a device for the time of a
-- disconnect, then after the next heartbeat its stream ends within as many rounds as items are queued, if
-- the handler of the end goes through: the device has no session any more, and the end of a session has
-- been reported once more, for this device.
pub send_device_heartbeats-reaps :
    (mac : String) (now : ℕ) (client : Client) (s : Server)
    → get mac s.clients ≡ some client
    → client.last_streamed + disconnect_timeout_sec ≤ now
    → let t = rounds mac now (length client.return_queue + 1) (send_device_heartbeats now s) in
      (get mac t.clients ≡ none) × (t.ended ≡ s.ended ++ mac ∷ [])
unfolding send_device_heartbeats
send_device_heartbeats-reaps mac now client s found stale =
    subst
      (λ n.
        (get mac (rounds mac now n (send_device_heartbeats now s)).clients ≡ none)
        × ((rounds mac now n (send_device_heartbeats now s)).ended ≡ s.ended ++ mac ∷ []))
      (length-append client.return_queue (close ∷ []))
      (rounds-closed (client.return_queue ++ close ∷ []) mac now client.last_streamed
        (send_device_heartbeats now s)
        (beat-get mac now client s.clients found
          ∙ ap (λ i. some (put i client)) (stale-close now client stale))
        (any-append_close client.return_queue))
