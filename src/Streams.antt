-- ===== src/Streams.antt =====
-- daq/stream_monitor.py (StreamMonitor): the table of watched descriptors and the event loop. A handler is
-- given by a number; what it does to the monitor is the parameter `run`.
pub mod Watched
mod Tests
use daq.Base.{
  ℕ, zero, suc, ◌+◌, ◌-◌, ◌*◌, ◌/◌, ◌%◌, ◌≤◌, ◌<◌, min, String, ◌≡◌, refl, sym, ap, ◌∙◌, subst, ◌≢◌,
  ◌↔◌, ◌⊎◌, inl, inr, Bool, true, false, not, ◌&&◌, ◌||◌, Option, none, some, List, [], ◌∷◌, ◌++◌,
  map, arith, ltb, leb, nat_beq, if◌then◌else◌, ltb→lt, lt→ltb, leb→le, nat_beq_iff, Bool-cases,
  Option-cases, is_some, Eq, ◌==◌, nat_eq, string_eq, beq_self, beq→eq, beq_false, length,
  length-append, select, any, all, nonempty, All, length-select, All-append, count_from, range,
  contains, discard, add, remove_first, IsDistinct, contains-append, contains-discard, contains-add,
  IsDistinct-append_one, IsDistinct-add, IsDistinct-discard, take, drop, take-append, drop-append,
  append_assoc, append_nil, pair_eq,
}
use daq.Base.Dict.{Dict, keys, values, get, has, insert, erase, get-insert, get-erase}
use daq.Base.Action.{
  Error, assertion, missing, attribute, raised, Result, ok, err, Action, pure, raise, gets,
  or_raise, try_except, skip, modify, assert, when, maybe, ◌>>=◌, ◌>>◌,
}
use daq.Base.Action.Preserves.{
  Preserves, Preserves-modify, Preserves-bind, Preserves-maybe, Preserves-after, Preserves-gets,
  Preserves-if, Preserves-raise, Preserves-assert, preserves_rules,
}

pub record Entry : Type 0 where
  pub callback : Option ℕ
  pub hangup : Option ℕ
  pub error : Option ℕ

-- `registered` is what the poller watches; `closed` the descriptors that have been closed.
pub record Monitor : Type 0 where
  pub callbacks : Dict ℕ Entry
  pub fd_priority : Dict ℕ ℕ
  pub registered : List ℕ
  pub closed : List ℕ

-- The bits of a poll event: POLLNVAL, POLLIN, and POLLHUP or POLLERR.
pub record Event : Type 0 where
  pub invalid : Bool
  pub readable : Bool
  pub hung_up : Bool

unfoldable pub register : ℕ → Entry → ℕ → Monitor → Monitor
register fd entry priority m = record m {
  callbacks = insert fd entry m.callbacks;
  fd_priority = insert fd priority m.fd_priority;
  registered = add m.registered fd;
}

unfoldable pub monitor : ℕ → Entry → ℕ → Action Monitor (Unit {0})
unfolding register ◌>>=◌
monitor fd entry priority = gets (λ m. has fd m.callbacks) >>= λ known.
    assert (not known) >> modify (register fd entry priority)

unfoldable pub unregister : ℕ → Monitor → Monitor
unregister fd m = record m {
  callbacks = erase fd m.callbacks;
  registered = discard m.registered fd;
}

unfoldable pub forget : ℕ → Action Monitor (Unit {0})
unfolding unregister ◌>>=◌
forget fd = gets (λ m. has fd m.callbacks) >>= λ known. assert known >> modify (unregister fd)

unfoldable pub close_fd : ℕ → Monitor → Monitor
close_fd fd m = record m { closed = fd ∷ m.closed }

-- The events of a poll by falling priority, those of the same priority in their order; a descriptor
-- without a priority raises a KeyError.
abbrev pub Ready : Type 0
Ready = List (ℕ × Event)

unfoldable pub place : ℕ → ℕ × Event → List (ℕ × (ℕ × Event)) → List (ℕ × (ℕ × Event))
place priority ready [] = (priority, ready) ∷ []
place priority ready ((p, r) ∷ rest) =
    let placed = place priority ready rest in
    if ltb priority p then (p, r) ∷ placed else (priority, ready) ∷ (p, r) ∷ rest

-- The last element is placed first, so that equal priorities keep their order.
unfoldable pub sorted : Dict ℕ ℕ → Ready → Option (List (ℕ × (ℕ × Event)))
unfolding place
sorted priorities [] = some []
sorted priorities (ready ∷ rest) =
    let tail = sorted priorities rest in
    elim (get ready.0 priorities) [
      | none ↦ none
      | some priority ↦ (elim tail [
        | none ↦ none
        | some placed ↦ some (place priority ready placed)
      ])
    ]

module _ (run : ℕ → Action Monitor (Unit {0})) (reads : Bool) where
  -- What a handler raises is logged.
  unfoldable pub error_handler : Option ℕ → Action Monitor (Unit {0})
  error_handler handler = maybe handler skip (λ h. try_except (run h) (λ _. skip))

  unfoldable pub find_entry : ℕ → Action Monitor Entry
  unfolding ◌>>=◌
  find_entry fd = gets (λ m. get fd m.callbacks) >>= λ found. or_raise found missing

  -- Without a callback the data is read and dropped, where `reads` says whether that goes through.
  unfoldable pub trigger_callback : ℕ → Action Monitor (Unit {0})
  unfolding find_entry error_handler ◌>>=◌
  trigger_callback fd = find_entry fd >>= λ entry.
      try_except (maybe entry.callback (if reads then skip else raise raised) run)
        (λ _. error_handler entry.error)

  unfoldable pub trigger_hangup : ℕ → Action Monitor (Unit {0})
  unfolding find_entry close_fd forget error_handler ◌>>=◌
  trigger_hangup fd = find_entry fd >>= λ entry.
      modify (close_fd fd)
      >> try_except (forget fd >> maybe entry.hangup skip run) (λ _. error_handler entry.error)

  unfoldable pub process_poll_result : Event → ℕ → Action Monitor (Unit {0})
  unfolding trigger_callback trigger_hangup
  process_poll_result event fd =
      if event.invalid
      then raise assertion
      else if event.readable
      then trigger_callback fd
      else if event.hung_up
      then trigger_hangup fd
      else raise assertion

  -- The table may have changed since the poll.
  unfoldable pub process_ready : ℕ → Event → Action Monitor (Unit {0})
  unfolding process_poll_result ◌>>=◌
  process_ready fd event =
      gets (λ m. has fd m.callbacks) >>= λ known. when known (process_poll_result event fd)

  -- The loop over the sorted events.
  unfoldable pub process_all : List (ℕ × (ℕ × Event)) → Action Monitor (Unit {0})
  unfolding process_ready ◌>>=◌
  process_all [] = skip
  process_all ((priority, (fd, event)) ∷ rest) = process_ready fd event >> process_all rest

  -- The first part of `event_loop`, which says whether the loop goes on; exceptions are logged. `ready`
  -- says whether the first poll found anything.
  unfoldable pub run_idle : Bool → Option ℕ → Option ℕ → Action Monitor Bool
  unfolding ◌>>=◌
  run_idle ready idle_handler loop_hook =
      try_except
        ((if ready
            then pure true
            else maybe idle_handler (pure true) (λ h. run h >> gets (λ m. nonempty m.callbacks)))
          >>= λ active. if active then maybe loop_hook skip run >> pure true else pure false)
        (λ _. pure true)

  -- `fds` is what the second poll finds.
  unfoldable pub event_loop : Bool → Option ℕ → Option ℕ → Ready → Action Monitor Bool
  unfolding run_idle sorted process_all ◌>>=◌
  event_loop ready idle_handler loop_hook fds = run_idle ready idle_handler loop_hook >>= λ active.
      if active
      then (gets (λ m. sorted m.fd_priority fds) >>= λ order. or_raise order missing >>= λ events.
          process_all events >> gets (λ m. nonempty m.callbacks))
      else pure false
