-- ===== src/Streams/Tests.antt =====
-- daq/stream_monitor.py: samples.
use daq.Base.{ℕ, true, false, none, some, [], ◌∷◌, arith, nat_eq, string_eq, pair_eq}
use daq.Base.Action.{Action}
use daq.Streams.{Monitor, Entry, Event, forget, event_loop}
use daq.Streams.Watched.{IsWatched, forget-kept, event_loop-IsWatched}

abbrev entry : Entry
entry = record { callback = some 5; hangup = none; error = none }

abbrev two_streams : Monitor
two_streams = record {
  callbacks = (4, entry) ∷ (5, entry) ∷ [];
  fd_priority = (4, 1) ∷ (5, 2) ∷ [];
  registered = 4 ∷ 5 ∷ [];
  closed = [];
}

-- A handler stops watching the descriptor of its number.
abbrev handlers : ℕ → Action Monitor (Unit {0})
handlers = forget

abbrev readable : Event
readable = record { invalid = false; readable = true; hung_up = false }

two_streams-IsWatched : IsWatched two_streams
two_streams-IsWatched = λ fd. ground arith

event_loop-IsWatched_example :
    IsWatched
      (event_loop handlers true true none none ((4, readable) ∷ (5, readable) ∷ []) two_streams).1
event_loop-IsWatched_example =
    event_loop-IsWatched handlers true true none none ((4, readable) ∷ (5, readable) ∷ [])
      two_streams forget-kept two_streams-IsWatched
