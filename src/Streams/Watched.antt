-- ===== src/Streams/Watched.antt =====
-- daq/stream_monitor.py: the poller watches exactly the descriptors of the table.
use daq.Base.{
  ℕ, ◌≡◌, Bool, not, Option, List, [], ◌∷◌, arith, nat_eq, string_eq, contains, contains-discard,
  contains-add, pair_eq,
}
use daq.Base.Dict.{has, get-insert, get-erase}
use daq.Base.Action.{Action, modify}
use daq.Base.Action.Preserves.{
  Preserves, Preserves-modify, Preserves-bind, Preserves-gets, Preserves-assert, preserves_rules,
}
use daq.Streams.{
  process_ready, Monitor, Entry, Event, Ready, register, monitor, unregister, forget, close_fd,
  error_handler, find_entry, trigger_callback, trigger_hangup, process_poll_result, process_all,
  run_idle, event_loop,
}

abbrev pub IsWatched : Monitor → Type 0
IsWatched m = (fd : ℕ) → contains m.registered fd ≡ has fd m.callbacks

register-IsWatched :
    (fd : ℕ) (entry : Entry) (priority : ℕ) (m : Monitor)
    → IsWatched m
    → IsWatched (register fd entry priority m)
unfolding register
register-IsWatched fd entry priority m h = λ k. ground (
  arith,
  h k,
  contains-add m.registered fd k,
  get-insert k fd entry m.callbacks,
  nat_eq.beq_iff k fd,
)

unregister-IsWatched : (fd : ℕ) (m : Monitor) → IsWatched m → IsWatched (unregister fd m)
unfolding unregister
unregister-IsWatched fd m h = λ k. ground (
  arith,
  h k,
  contains-discard m.registered fd k,
  get-erase k fd m.callbacks,
  nat_eq.beq_iff k fd,
)

pub monitor-kept :
    (fd : ℕ) (entry : Entry) (priority : ℕ) → Preserves IsWatched (monitor fd entry priority)
unfolding monitor
monitor-kept fd entry priority = Preserves-bind _ _ (Preserves-gets _) (λ known.
    Preserves-bind _ _ (Preserves-assert (not known))
      (λ _. Preserves-modify (register fd entry priority) (register-IsWatched fd entry priority)))

pub forget-kept : (fd : ℕ) → Preserves IsWatched (forget fd)
unfolding forget
forget-kept fd = Preserves-bind _ _ (Preserves-gets _) (λ known.
    Preserves-bind _ _ (Preserves-assert known)
      (λ _. Preserves-modify (unregister fd) (unregister-IsWatched fd)))

close-kept : (fd : ℕ) → Preserves IsWatched (modify (close_fd fd))
unfolding close_fd
close-kept fd = Preserves-modify _ (λ m h. h)

module _ (run : ℕ → Action Monitor (Unit {0})) (reads : Bool)
    (kept : (handler : ℕ) → Preserves IsWatched (run handler)) where
  error-kept : (handler : Option ℕ) → Preserves IsWatched (error_handler run reads handler)
  unfolding error_handler
  error-kept handler = search (preserves_rules, kept) depth 12

  entry-kept : (fd : ℕ) → Preserves IsWatched (find_entry run reads fd)
  unfolding find_entry
  entry-kept fd = search preserves_rules depth 12

  callback-kept : (fd : ℕ) → Preserves IsWatched (trigger_callback run reads fd)
  unfolding trigger_callback
  callback-kept fd = search (preserves_rules, kept, error-kept, entry-kept) depth 14

  hangup-kept : (fd : ℕ) → Preserves IsWatched (trigger_hangup run reads fd)
  unfolding trigger_hangup
  hangup-kept fd =
      search (preserves_rules, kept, error-kept, entry-kept, close-kept, forget-kept) depth 14

  poll-kept :
      (event : Event) (fd : ℕ) → Preserves IsWatched (process_poll_result run reads event fd)
  unfolding process_poll_result
  poll-kept event fd = search (preserves_rules, callback-kept, hangup-kept) depth 12

  ready-kept : (fd : ℕ) (event : Event) → Preserves IsWatched (process_ready run reads fd event)
  unfolding process_ready
  ready-kept fd event = search (preserves_rules, poll-kept) depth 12

  all-kept : (events : List (ℕ × (ℕ × Event))) → Preserves IsWatched (process_all run reads events)
  unfolding process_all
  all-kept [] = search preserves_rules
  all-kept ((priority, (fd, event)) ∷ rest) =
      Preserves-bind _ _ (ready-kept fd event) (λ _. all-kept rest)

  idle-kept :
      (ready : Bool) (idle_handler loop_hook : Option ℕ)
      → Preserves IsWatched (run_idle run reads ready idle_handler loop_hook)
  unfolding run_idle
  idle-kept ready idle_handler loop_hook = search (preserves_rules, kept) depth 16

  loop-kept :
      (ready : Bool) (idle_handler loop_hook : Option ℕ) (fds : Ready)
      → Preserves IsWatched (event_loop run reads ready idle_handler loop_hook fds)
  unfolding event_loop
  loop-kept ready idle_handler loop_hook fds =
      search (preserves_rules, idle-kept, all-kept) depth 16

-- The poller watches what the table holds. If it watches exactly the descriptors of the table and every
-- handler that the loop calls leaves it so, then this holds after a round of the event loop too, whatever
-- the poll finds, whichever handlers raise, and also if the round itself raises.
pub event_loop-IsWatched :
    (run : ℕ → Action Monitor (Unit {0})) (reads ready : Bool) (idle_handler loop_hook : Option ℕ)
    (fds : Ready) (m : Monitor)
    → ((handler : ℕ) → Preserves IsWatched (run handler))
    → IsWatched m
    → IsWatched (event_loop run reads ready idle_handler loop_hook fds m).1
event_loop-IsWatched run reads ready idle_handler loop_hook fds m kept =
    (loop-kept run reads kept ready idle_handler loop_hook fds).from m
