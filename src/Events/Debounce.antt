-- ===== src/Events/Debounce.antt =====
-- daq/faucet_event_client.py: what reaches the debounced queue, for every order in which ports change
-- and timers expire.
use daq.Base.{
  ℕ, ◌<◌, ◌≡◌, refl, sym, ap, ◌∙◌, Bool, true, false, not, Option, some, List, [], ◌∷◌, ◌++◌, arith,
  if◌then◌else◌, ◌==◌, nat_eq, string_eq, append_assoc, append_nil, pair_eq,
}
use daq.Base.Dict.{get, insert, get-insert}
use daq.Events.{Event, Client, make_port_state, debounce_port_event, expire}

-- A port that changes, and its timer running out.
pub data Input : Type 0 where
  change : ℕ → ℕ → Bool → Input
  timeout : ℕ → ℕ → Input

abbrev pub step : Input → Client → Client
step (change dpid port active) c = debounce_port_event dpid port active c
step (timeout dpid port) c = expire dpid port c

-- The last input is the first of the list.
abbrev pub after : List Input → Client → Client
after [] c = c
after (input ∷ earlier) c = step input (after earlier c)

-- The specification: a port is held while its last change was to down and no timeout followed.
abbrev pub is_held : ℕ × ℕ → List Input → Bool
is_held key [] = false
is_held key (change dpid port active ∷ earlier) =
    if key == (dpid, port) then not active else is_held key earlier
is_held key (timeout dpid port ∷ earlier) =
    if key == (dpid, port) then false else is_held key earlier

-- The specification: an up is passed on at once, a down at the timeout of a held port.
abbrev pub delivered : List Input → List Event
delivered [] = []
delivered (change dpid port true ∷ earlier) =
    delivered earlier ++ make_port_state dpid port true true ∷ []
delivered (change dpid port false ∷ earlier) = delivered earlier
delivered (timeout dpid port ∷ earlier) =
    if is_held (dpid, port) earlier
    then delivered earlier ++ make_port_state dpid port false true ∷ []
    else delivered earlier

abbrev is_pending : Option Bool → Bool
is_pending (some true) = true
is_pending _ = false

step-debounce_sec :
    (input : Input) (c : Client) → (step input c).port_debounce_sec ≡ c.port_debounce_sec
unfolding debounce_port_event expire
step-debounce_sec (change dpid port active) c = ground arith
step-debounce_sec (timeout dpid port) c = ground arith

after-debounce_sec :
    (inputs : List Input) (c : Client) → (after inputs c).port_debounce_sec ≡ c.port_debounce_sec
after-debounce_sec [] c = refl
after-debounce_sec (input ∷ earlier) c =
    step-debounce_sec input (after earlier c) ∙ after-debounce_sec earlier c

change-pending :
    (key : ℕ × ℕ) (dpid port : ℕ) (active : Bool) (c : Client)
    → 0 < c.port_debounce_sec
    → is_pending (get key (debounce_port_event dpid port active c).port_timers)
      ≡ (if key == (dpid, port) then not active else is_pending (get key c.port_timers))
unfolding debounce_port_event
change-pending key dpid port active c h = ground (
  arith,
  get-insert key (dpid, port) true c.port_timers,
  get-insert key (dpid, port) false c.port_timers,
  get-insert key (dpid, port) true (insert (dpid, port) false c.port_timers),
  pair_eq.beq_iff key (dpid, port),
)

timeout-pending :
    (key : ℕ × ℕ) (dpid port : ℕ) (c : Client)
    → is_pending (get key (expire dpid port c).port_timers)
      ≡ (if key == (dpid, port) then false else is_pending (get key c.port_timers))
unfolding expire
timeout-pending key dpid port c =
    ground
      (arith, get-insert key (dpid, port) false c.port_timers, pair_eq.beq_iff key (dpid, port))

after-held :
    (inputs : List Input) (key : ℕ × ℕ) (c : Client)
    → 0 < c.port_debounce_sec
    → c.port_timers ≡ []
    → is_pending (get key (after inputs c).port_timers) ≡ is_held key inputs
after-held [] key c h none_set = rw none_set refl
after-held (change dpid port active ∷ earlier) key c h none_set =
    rw (change-pending key dpid port active (after earlier c) (rw (after-debounce_sec earlier c) h))
      (ap (λ b. if key == (dpid, port) then not active else b)
        (after-held earlier key c h none_set))
after-held (timeout dpid port ∷ earlier) key c h none_set =
    rw (timeout-pending key dpid port (after earlier c))
      (ap (λ b. if key == (dpid, port) then false else b) (after-held earlier key c h none_set))

change-queue :
    (dpid port : ℕ) (active : Bool) (c : Client)
    → 0 < c.port_debounce_sec
    → (debounce_port_event dpid port active c).debounced_q ≡ (
        if active then c.debounced_q ++ make_port_state dpid port true true ∷ [] else c.debounced_q)
unfolding debounce_port_event
change-queue dpid port active c h = ground arith

timeout-queue :
    (dpid port : ℕ) (c : Client)
    → (expire dpid port c).debounced_q ≡ (
        if is_pending (get (dpid, port) c.port_timers)
        then c.debounced_q ++ make_port_state dpid port false true ∷ []
        else c.debounced_q)
unfolding expire
timeout-queue dpid port c = ground arith

-- The queue of debounced events implements the specification. For a client that debounces for a time
-- other than 0 and has no timers yet, any sequence of port changes and timeouts adds to the queue, in
-- their order: each change to up, and a down at each timeout of a port whose last change before it was to
-- down, with no timeout of the port in between. Nothing else is added, and a repeated up is added again.
pub debounce_port_event-delivered :
    (inputs : List Input) (c : Client)
    → 0 < c.port_debounce_sec
    → c.port_timers ≡ []
    → (after inputs c).debounced_q ≡ c.debounced_q ++ delivered inputs
debounce_port_event-delivered [] c h none_set = sym (append_nil c.debounced_q)
debounce_port_event-delivered (change dpid port true ∷ earlier) c h none_set = cc (
  change-queue dpid port true (after earlier c) (rw (after-debounce_sec earlier c) h),
  debounce_port_event-delivered earlier c h none_set,
  append_assoc c.debounced_q (delivered earlier) (make_port_state dpid port true true ∷ []),
)
debounce_port_event-delivered (change dpid port false ∷ earlier) c h none_set = cc (
  change-queue dpid port false (after earlier c) (rw (after-debounce_sec earlier c) h),
  debounce_port_event-delivered earlier c h none_set,
)
debounce_port_event-delivered (timeout dpid port ∷ earlier) c h none_set = ground (
  arith,
  timeout-queue dpid port (after earlier c),
  after-held earlier (dpid, port) c h none_set,
  debounce_port_event-delivered earlier c h none_set,
  append_assoc c.debounced_q (delivered earlier) (make_port_state dpid port false true ∷ []),
)
