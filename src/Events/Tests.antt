-- ===== src/Events/Tests.antt =====
-- daq/faucet_event_client.py: samples.
use daq.Base.{
  ◌≡◌, refl, true, false, List, [], ◌∷◌, ◌++◌, arith, nat_eq, string_eq, nonempty, pair_eq,
}
use daq.Events.{Event, make_port_state, Client, has_line, split_line, prepend_event, append_event}
use daq.Events.Buffer.{buffer-refines_lines, Lines, buffer_of, push_front, push_back, pop_front}
use daq.Events.Debounce.{debounce_port_event-delivered, Input, change, timeout, after, delivered}
use mathlib.Core.Option.{map as map_option}

abbrev lines : Lines
lines = record { whole = (1 ∷ 2 ∷ []) ∷ (3 ∷ []) ∷ []; part = 4 ∷ [] }

buffer-refines_lines_example :
    (prepend_event (5 ∷ []) (buffer_of lines) ≡ buffer_of (push_front (5 ∷ []) lines))
    × (append_event (5 ∷ []) (buffer_of lines) ≡ buffer_of (push_back (5 ∷ []) lines))
    × (split_line (buffer_of lines) ≡ map_option (λ r. (r.0, buffer_of r.1)) (pop_front lines))
    × (has_line (buffer_of lines) ≡ nonempty lines.whole)
buffer-refines_lines_example = buffer-refines_lines lines (5 ∷ []) ((refl, (refl, tt)), refl) refl

abbrev client : Client
client = record {
  buffer = [];
  debounced_q = [];
  previous_state = [];
  port_debounce_sec = 5;
  port_timers = [];
  incoming = [];
}

-- Port 3 goes down and comes back, port 4 goes down until its timer ends.
abbrev flap : List Input
flap = timeout 1 3 ∷ timeout 1 4 ∷ change 1 3 true ∷ change 1 4 false ∷ change 1 3 false ∷ []

abbrev passed_on : List Event
passed_on = make_port_state 1 3 true true ∷ make_port_state 1 4 false true ∷ []

debounce_port_event_example : (after flap client).debounced_q ≡ [] ++ delivered flap
debounce_port_event_example = debounce_port_event-delivered flap client (omega arith) refl

flap-delivered : delivered flap ≡ passed_on
flap-delivered = refl
