-- ===== src/Events/Handling.antt =====
-- daq/faucet_event_client.py: events and the client's state.
use daq.Base.{
  ℕ, String, Bool, true, false, not, ◌&&◌, ◌||◌, Option, none, some, List, [], ◌∷◌, ◌++◌,
  if◌then◌else◌, ◌==◌, nat_eq, string_eq, nonempty, pair_eq,
}
use daq.Base.Dict.{Dict, get, has, insert}
use daq.Base.Action.{raised, ok, err, Action, pure, or_raise, ◌>>=◌}
use daq.Events.Lines.{has_line, split_line, prepend_event}

-- What a line holds as JSON, by the key that the client looks for; `other` is another value, with
-- whether Python takes it for true.
pub data Event : Type 0 where
  port_change : ℕ → ℕ → Bool → String → Bool → Event
  ports_status : ℕ → Dict ℕ Bool → Event
  learn : ℕ → ℕ → String → ℕ → Event
  config_change : ℕ → Option String → Event
  other : Bool → Event

-- The JSON library: `dumps`, and `loads` with none where it raises.
pub record Json : Type 0 where
  pub dumps : Event → List ℕ
  pub loads : List ℕ → Option Event

-- A port is known by its switch and number, as in the text `dpid-port`.
pub record Client : Type 0 where
  pub buffer : List ℕ
  pub debounced_q : List Event
  pub previous_state : Dict (ℕ × ℕ) Bool
  pub port_debounce_sec : ℕ
  -- the timers, with whether each is still to run its function
  pub port_timers : Dict (ℕ × ℕ) Bool
  -- what the reads of the socket give in their order; a read that waits for more finds that the switch
  -- has closed the socket
  pub incoming : List (List ℕ)

unfoldable pub make_port_state : ℕ → ℕ → Bool → Bool → Event
make_port_state dpid port status debounced = port_change dpid port status "MODIFY" debounced

unfoldable pub as_config_change : Option Event → Option (ℕ × Option String)
as_config_change (some (config_change dpid restart_type)) = some (dpid, restart_type)
as_config_change _ = none

unfoldable pub as_ports_status : Option Event → Option (ℕ × Dict ℕ Bool)
as_ports_status (some (ports_status dpid status)) = some (dpid, status)
as_ports_status _ = none

unfoldable pub as_port_state : Option Event → Option (ℕ × ℕ × Bool)
as_port_state (some (port_change dpid port status reason debounced)) =
    some (dpid, port, status && not (reason == "DELETE"))
as_port_state _ = none

unfoldable pub as_port_learn : Option Event → Option (ℕ × ℕ × String × ℕ)
as_port_learn (some (learn dpid port eth_src vid)) = some (dpid, port, eth_src, vid)
as_port_learn _ = none

-- `event.get('debounced')`
abbrev is_debounced : Option Event → Bool
is_debounced (some (port_change _ _ _ _ debounced)) = debounced
is_debounced _ = false

-- The truth value of an event.
abbrev pub is_true : Option Event → Bool
is_true none = false
is_true (some (other b)) = b
is_true (some _) = true

-- `state_key in self.previous_state and self.previous_state[state_key] == active`
abbrev pub had_state : Bool → Option Bool → Bool
had_state active none = false
had_state active (some before) = if active then before else not before

unfoldable pub process_state_update : ℕ → ℕ → Bool → Action Client Bool
process_state_update dpid port active c =
    if had_state active (get (dpid, port) c.previous_state)
    then (ok false, c)
    else (ok true, record c { previous_state = insert (dpid, port) active c.previous_state })

unfoldable pub handle_debounce : ℕ → ℕ → Bool → Client → Client
unfolding make_port_state
handle_debounce dpid port active c = record c {
  debounced_q = c.debounced_q ++ make_port_state dpid port active true ∷ [];
}

-- `if state_key in self._port_timers: self._port_timers[state_key].cancel()`
unfoldable pub cancel_timer : ℕ → ℕ → Client → Client
cancel_timer dpid port c =
    if has (dpid, port) c.port_timers
    then record c { port_timers = insert (dpid, port) false c.port_timers }
    else c

unfoldable pub debounce_port_event : ℕ → ℕ → Bool → Client → Client
unfolding handle_debounce cancel_timer
debounce_port_event dpid port active c =
    if c.port_debounce_sec == 0
    then handle_debounce dpid port active c
    else (let d = cancel_timer dpid port c in
        if active
        then handle_debounce dpid port active d
        else record d { port_timers = insert (dpid, port) true d.port_timers })

-- The timer of a port runs its function, unless it has been cancelled or has run before.
unfoldable pub expire : ℕ → ℕ → Client → Client
unfolding handle_debounce
expire dpid port c = elim (get (dpid, port) c.port_timers) [
  | some true ↦
      handle_debounce dpid port false
        (record c { port_timers = insert (dpid, port) false c.port_timers })
  | _ ↦ c
]

module _ (json : Json) where
  -- The loop over the ports of a status event.
  unfoldable pub prepend_states : ℕ → Dict ℕ Bool → Client → Client
  unfolding make_port_state prepend_event
  prepend_states dpid [] c = c
  prepend_states dpid ((port, active) ∷ status) c = prepend_states dpid status (record c {
    buffer = prepend_event (json.dumps (make_port_state dpid port active false)) c.buffer;
  })

  unfoldable filter_status : Option Event → Action Client (Option Event)
  unfolding as_ports_status prepend_states
  filter_status event c = elim (as_ports_status event) [
    | none ↦ (ok event, c)
    | some (dpid, status) ↦
        if dpid == 0 then (ok event, c) else (ok none, prepend_states dpid status c)
  ]

  unfoldable pub filter_faucet_event : Option Event → Action Client (Option Event)
  unfolding as_port_state filter_status debounce_port_event process_state_update ◌>>=◌
  filter_faucet_event event c = elim (as_port_state event) [
    | none ↦ filter_status event c
    | some (dpid, port, active) ↦
        if dpid == 0 || port == 0
        then filter_status event c
        else if not (is_debounced event)
        then (ok none, debounce_port_event dpid port active c)
        else (process_state_update dpid port active >>= λ changed.
              pure (if changed then event else none))
            c
  ]

-- `has_event`: reads until there is a line, or until there is no data and the caller does not wait. An
-- empty read means that the switch has disconnected.
unfoldable receive : Bool → List (List ℕ) → Action Client Bool
unfolding has_line ◌>>=◌
receive blocking [] c =
    if has_line c.buffer then (ok true, c) else if blocking then (err raised, c) else (ok false, c)
receive blocking (chunk ∷ more) c =
    let rest = receive blocking more (record c { buffer = c.buffer ++ chunk; incoming = more }) in
    if has_line c.buffer
    then (ok true, c)
    else if nonempty chunk
    then rest
    else (err raised, record c { incoming = more })

unfoldable pub has_event : Bool → Action Client Bool
unfolding receive
has_event blocking c = receive blocking c.incoming c

-- What a round of the loop of `next_event` ends with: a result, or the value of the local `event`, which
-- is none before it is assigned.
pub data Round : Type 0 where
  done : Option Event → Round
  again : Option (Option Event) → Round

module _ (json : Json) where
  -- What the local `event` holds after `json.loads`: a line that does not parse leaves it as it was.
  abbrev pub parsed : Option (Option Event) → Option Event → Option (Option Event)
  parsed local none = local
  parsed local (some event) = some (some event)

  unfoldable pub take_line : Option (Option Event) → Action Client Round
  unfolding split_line filter_faucet_event ◌>>=◌
  take_line local c = elim (split_line c.buffer) [
    | none ↦ (err raised, c)
    | some (line, remainder) ↦
        (or_raise (parsed local (json.loads line)) raised >>= λ event.
        filter_faucet_event json event >>= λ kept.
        pure (if is_true kept then done kept else again (some kept)))
          (record c { buffer = remainder })
  ]

  -- The condition of the loop of `next_event`, and its body.
  unfoldable pub next_round : Bool → Option (Option Event) → Action Client Round
  unfolding has_event take_line ◌>>=◌
  next_round blocking local c = elim c.debounced_q [
    | event ∷ events ↦ (ok (done (some event)), record c { debounced_q = events })
    | [] ↦ (has_event blocking >>= λ ready. if ready then take_line local else pure (done none)) c
  ]
