-- ===== src/Runner/Triggers.antt =====
-- daq/runner.py, _target_set_trigger: when a device is activated, queued or ignored.
use daq.Base.{
  ℕ, ◌≤◌, ◌<◌, ◌≡◌, sym, ap, subst, ◌⊎◌, inl, inr, Bool, true, false, none, some, [], ◌∷◌, ◌++◌,
  arith, ltb, ltb→lt, Bool-cases, Option-cases, nat_eq, string_eq, contains, pair_eq,
}
use daq.Base.Action.{assertion, Result, ok, err, Action, skip, ◌>>=◌, ◌>>◌}
use daq.Devices.{update}
use daq.Devices
use daq.Runner.{
  Runner, Config, Surroundings, target_set_trigger, target_set_activate, accept_trigger, is_ignored,
  on_device, number_triggered, the_device,
}

abbrev pub accepted : ℕ → Runner → Runner
accepted device r = record r {
  registry = record (r.registry) {
    device_at =
        update r.registry.device_at device
          (record (r.registry.device_at device) { wait_remote = false });
  };
}

trigger-ignored :
    (config : Config) (env : Surroundings) (drain : Action Runner (Unit {0})) (remote : Bool)
    (device : ℕ) (r : Runner)
    → Devices.holds r.registry device ≡ true
    → is_ignored remote device r ≡ true
    → target_set_trigger config env drain remote device r ≡ (ok tt, r)
unfolding target_set_trigger
trigger-ignored config env drain remote device r h i = rw (h, i)

trigger-accepted :
    (config : Config) (env : Surroundings) (drain : Action Runner (Unit {0})) (remote : Bool)
    (device : ℕ) (r : Runner)
    → Devices.holds r.registry device ≡ true
    → is_ignored remote device r ≡ false
    → target_set_trigger config env drain remote device r ≡ accept_trigger config env drain device r
unfolding target_set_trigger
trigger-accepted config env drain remote device r h i = rw (h, i)

trigger-unknown :
    (config : Config) (env : Surroundings) (drain : Action Runner (Unit {0})) (remote : Bool)
    (device : ℕ) (r : Runner)
    → Devices.holds r.registry device ≡ false
    → target_set_trigger config env drain remote device r ≡ (err assertion, r)
unfolding target_set_trigger
trigger-unknown config env drain remote device r h = rw h

module _ (remote : Bool) (device : ℕ) (r : Runner) where
  -- What makes a trigger of a registered device count for nothing.
  abbrev pub Ignored : Type 0
  Ignored =
      (r.system_active ≡ false)
      ⊎ ((h : ℕ) × ((the_device device r).host ≡ some h))
      ⊎ (r.run_tests ≡ false)
      ⊎ (((the_device device r).wait_remote ≡ true) × (remote ≡ false))
      ⊎ (contains r.target_set_queue device ≡ true)

  abbrev pub Accepted : Type 0
  Accepted =
      (r.system_active ≡ true)
      × ((the_device device r).host ≡ none)
      × (r.run_tests ≡ true)
      × (((the_device device r).wait_remote ≡ false) ⊎ (remote ≡ true))
      × (contains r.target_set_queue device ≡ false)

  unqueued_lem :
      r.system_active ≡ true
      → (the_device device r).host ≡ none
      → r.run_tests ≡ true
      → ((the_device device r).wait_remote ≡ false) ⊎ (remote ≡ true)
      → ((is_ignored remote device r ≡ true) × Ignored)
        ⊎ ((is_ignored remote device r ≡ false) × Accepted)
  unfolding is_ignored
  unqueued_lem on hostless runs met = elim (Bool-cases (contains r.target_set_queue device)) [
    | inl queued ↦
        inl (ground (arith, on, hostless, runs, met, queued), inr (inr (inr (inr queued))))
    | inr new ↦ inr (ground (arith, on, hostless, runs, met, new), (on, hostless, runs, met, new))
  ]

  running_lem :
      r.system_active ≡ true
      → (the_device device r).host ≡ none
      → r.run_tests ≡ true
      → ((is_ignored remote device r ≡ true) × Ignored)
        ⊎ ((is_ignored remote device r ≡ false) × Accepted)
  unfolding is_ignored
  running_lem on hostless runs = elim (Bool-cases remote) [
    | inl far ↦ unqueued_lem on hostless runs (inr far)
    | inr near ↦ elim (Bool-cases ((the_device device r).wait_remote)) [
      | inl waits ↦
          inl (ground (arith, on, hostless, runs, waits, near), inr (inr (inr (inl (waits, near)))))
      | inr ready ↦ unqueued_lem on hostless runs (inl ready)
    ]
  ]

  is_ignored_lem :
      ((is_ignored remote device r ≡ true) × Ignored)
      ⊎ ((is_ignored remote device r ≡ false) × Accepted)
  unfolding is_ignored
  is_ignored_lem = elim (Bool-cases (r.system_active)) [
    | inr off ↦ inl (ground (arith, off), inl off)
    | inl on ↦ elim (Option-cases (the_device device r).host) [
      | inr (h, hosted) ↦ inl (ground (arith, on, hosted), inr (inl (h, hosted)))
      | inl hostless ↦ elim (Bool-cases (r.run_tests)) [
        | inr stopped ↦ inl (ground (arith, on, hostless, stopped), inr (inr (inl stopped)))
        | inl runs ↦ running_lem on hostless runs
      ]
    ]
  ]

module _ (config : Config) (env : Surroundings) (drain : Action Runner (Unit {0})) (remote : Bool)
    (device : ℕ) (r : Runner) where
  -- An accepted device at full capacity goes to the end of the queue, another one is activated.
  abbrev pub Taken : Result (Unit {0}) → Runner → Type 0
  Taken result r' =
      ((n : ℕ) × (config.max_hosts ≡ some n)
        × (n ≤ number_triggered (accepted device r))
        × (result ≡ ok tt)
        × (r'
            ≡ record (accepted device r) { target_set_queue = r.target_set_queue ++ device ∷ [] }))
      ⊎ (((config.max_hosts ≡ none)
            ⊎ ((n : ℕ) × (config.max_hosts ≡ some n) × (number_triggered (accepted device r) < n)))
          × (r' ≡ (target_set_activate config env drain device (accepted device r)).1))

  abbrev pub Triggered : Result (Unit {0}) → Runner → Type 0
  Triggered result r' =
      ((Devices.holds r.registry device ≡ false) × (result ≡ err assertion) × (r' ≡ r))
      ⊎ ((Devices.holds r.registry device ≡ true)
          × Ignored remote device r
          × (result ≡ ok tt)
          × (r' ≡ r))
      ⊎ ((Devices.holds r.registry device ≡ true) × Accepted remote device r × Taken result r')

  then_skip : (m : Action Runner Bool) (s : Runner) → ((m >> skip) s).1 ≡ (m s).1
  unfolding ◌>>=◌
  then_skip m s = ground arith

  accept-unlimited :
      config.max_hosts ≡ none
      → (accept_trigger config env drain device r).1
        ≡ (target_set_activate config env drain device (accepted device r)).1
  unfolding accept_trigger on_device ◌>>=◌
  accept-unlimited m =
      rw m (then_skip (target_set_activate config env drain device) (accepted device r))

  accept-room :
      (n : ℕ)
      → config.max_hosts ≡ some n
      → ltb (number_triggered (accepted device r)) n ≡ true
      → (accept_trigger config env drain device r).1
        ≡ (target_set_activate config env drain device (accepted device r)).1
  unfolding accept_trigger on_device ◌>>=◌
  accept-room n m room =
      rw (m, room) (then_skip (target_set_activate config env drain device) (accepted device r))

  accept-full :
      (n : ℕ)
      → config.max_hosts ≡ some n
      → ltb (number_triggered (accepted device r)) n ≡ false
      → accept_trigger config env drain device r ≡ (
        ok tt,
        record (accepted device r) { target_set_queue = r.target_set_queue ++ device ∷ [] },
      )
  unfolding accept_trigger on_device
  accept-full n m full = rw (m, full)

  accept_trigger-Taken :
      let (result, r') = accept_trigger config env drain device r in Taken result r'
  accept_trigger-Taken = elim (Option-cases config.max_hosts) [
    | inl m ↦ inr (inl m, accept-unlimited m)
    | inr (n, m) ↦ elim (Bool-cases (ltb (number_triggered (accepted device r)) n)) [
      | inl room ↦ inr (inr (n, m, ltb→lt _ _ room), accept-room n m room)
      | inr full ↦
          let e = accept-full n m full in
          inl (n, m, ground (arith, full), ap (λ x. x.0) e, ap (λ x. x.1) e)
    ]
  ]

-- A trigger fails for a device that is not registered. For a registered one it does nothing exactly if
-- the system is not active, the device has a host, tests are suppressed, the device waits for a remote
-- trigger and this is none, or it is queued. Otherwise the device waits no longer for a remote trigger;
-- if the number of triggered devices is at the limit it is put at the end of the queue and nothing else
-- happens, and if there is no limit or a smaller number the target is activated.
pub target_set_trigger_outcome :
    (config : Config) (env : Surroundings) (drain : Action Runner (Unit {0})) (remote : Bool)
    (device : ℕ) (r : Runner)
    → let (result, r') = target_set_trigger config env drain remote device r in
      Triggered config env drain remote device r result r'
target_set_trigger_outcome config env drain remote device r =
    elim (Bool-cases (Devices.holds r.registry device)) [
      | inr unknown ↦
          let e = trigger-unknown config env drain remote device r unknown in
          inl (unknown, ap (λ x. x.0) e, ap (λ x. x.1) e)
      | inl known ↦ elim (is_ignored_lem remote device r) [
        | inl (ignored, why) ↦
            let e = trigger-ignored config env drain remote device r known ignored in
            inr (inl (known, why, ap (λ x. x.0) e, ap (λ x. x.1) e))
        | inr (new, why) ↦
            let e = trigger-accepted config env drain remote device r known new in
            let taken = accept_trigger-Taken config env drain remote device r in
            inr (
              inr (
                known,
                why,
                subst (λ x. Taken config env drain remote device r x.0 x.1) (sym e) taken,
              ))
      ]
    ]
