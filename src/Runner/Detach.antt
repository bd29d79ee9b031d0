-- ===== src/Runner/Detach.antt =====
-- daq/runner.py, _detach_gateway: when a gateway set is free again.
use daq.Base.{
  ℕ, String, ◌≡◌, refl, ◌∙◌, inl, inr, Bool, true, false, ◌&&◌, ◌||◌, none, some, arith, Bool-cases,
  ◌==◌, nat_eq, string_eq, length, contains, add, contains-add,
}
use daq.Base.Dict.{has, erase}
use daq.Base.Action.{Result, ok, err}
use daq.Devices.{update}
use daq.Gateway
use daq.Gateway.{Gateway, detach_target}
use daq.Runner.{
  Runner, Surroundings, the_device, retire_gateway, leave_gateway, detach_gateway,
  on_gateway_object, on_device,
}

terminate-port_set :
    (ends : Bool × Bool) (g : Gateway) → (Gateway.terminate ends g).1.port_set ≡ g.port_set
unfolding Gateway.terminate
terminate-port_set ends g = ground arith

detach-port_set : (mac : String) (g : Gateway) → (detach_target mac g).1.port_set ≡ g.port_set
unfolding detach_target
detach-port_set mac g = ground arith

retire_gateway_lem :
    (env : Surroundings) (device g : ℕ) (r : Runner)
    → (retire_gateway env device g r).0 ≡ ok tt
    → ((retire_gateway env device g r).1.gateway_sets
        ≡ add r.gateway_sets (r.gateway_at g).port_set)
unfolding retire_gateway on_gateway_object
retire_gateway_lem env device g r h =
    ground (arith, terminate-port_set env.gateway_ends (r.gateway_at g))

abbrev pub attached : ℕ → ℕ → Runner → Bool
attached device g r = has (the_device device r).mac (r.gateway_at g).targets

abbrev pub others : ℕ → ℕ → Runner → ℕ
others device g r = length (erase (the_device device r).mac (r.gateway_at g).targets)

abbrev without : ℕ → ℕ → Runner → Runner
without device g r = record r {
  gateway_at = update r.gateway_at g (record (r.gateway_at g) {
    targets = erase (the_device device r).mac (r.gateway_at g).targets;
  });
}

leave-more :
    (env : Surroundings) (device g : ℕ) (r : Runner)
    → attached device g r ≡ true
    → (others device g r == 0) ≡ false
    → leave_gateway env device g r
      ≡ on_device device (λ d. record d { gateway = none }) (without device g r)
unfolding leave_gateway detach_target on_gateway_object
leave-more env device g r h more = ground arith

abbrev close : ℕ → Result (Unit {0}) × Runner → Result (Unit {0}) × Runner
close device (ok u, r) = on_device device (λ d. record d { gateway = none }) r
close device (err x, r) = (err x, r)

leave-last :
    (env : Surroundings) (device g : ℕ) (r : Runner)
    → attached device g r ≡ true
    → (others device g r == 0) ≡ true
    → leave_gateway env device g r ≡ close device (retire_gateway env device g (without device g r))
unfolding leave_gateway detach_target on_gateway_object
leave-last env device g r h last = ground arith

detach-leave :
    (env : Surroundings) (device g : ℕ) (r : Runner)
    → (the_device device r).gateway ≡ some g
    → detach_gateway env device r ≡ leave_gateway env device g r
unfolding detach_gateway
detach-leave env device g r h = rw h

close-pool :
    (device : ℕ) (result : Result (Unit {0}) × Runner)
    → (close device result).0 ≡ ok tt
    → (result.0 ≡ ok tt)
      × ((the_device device (close device result).1).gateway ≡ none)
      × ((close device result).1.gateway_sets ≡ result.1.gateway_sets)
unfolding on_device
close-pool device (ok u, r) h = (refl, ground arith, refl)
close-pool device (err x, r) h = absurd (ground arith)

without-port_set :
    (device g : ℕ) (r : Runner)
    → ((without device g r).gateway_at g).port_set ≡ (r.gateway_at g).port_set
without-port_set device g r = ground arith

abbrev Left : Surroundings → ℕ → ℕ → Runner → Result (Unit {0}) × Runner → Type 0
Left env device g r result =
    (result.0 ≡ ok tt)
    → ((the_device device result.1).gateway ≡ none)
      × ((q : ℕ)
          → contains result.1.gateway_sets q ≡ (
              contains r.gateway_sets q
              || ((others device g r == 0) && q == (r.gateway_at g).port_set)))

more-Left :
    (env : Surroundings) (device g : ℕ) (r : Runner)
    → (others device g r == 0) ≡ false
    → Left env device g r (on_device device (λ d. record d { gateway = none }) (without device g r))
unfolding on_device
more-Left env device g r more h = (ground arith, λ q. ground arith)

last-Left :
    (env : Surroundings) (device g : ℕ) (r : Runner)
    → (others device g r == 0) ≡ true
    → Left env device g r (close device (retire_gateway env device g (without device g r)))
last-Left env device g r last h =
    let (retired, gone, pool) =
      close-pool device (retire_gateway env device g (without device g r)) h in
    let e = retire_gateway_lem env device g (without device g r) retired in
    (
      gone,
      λ q.
          rw (pool, e, without-port_set device g r, last)
            (contains-add r.gateway_sets (r.gateway_at g).port_set q),
    )

-- If a device leaves its gateway without an exception, it has no gateway any more, and the gateway's set
-- becomes free exactly if no other device is attached to the gateway; no other set changes.
pub detach_gateway_outcome :
    (env : Surroundings) (device g : ℕ) (r : Runner)
    → (the_device device r).gateway ≡ some g
    → attached device g r ≡ true
    → (detach_gateway env device r).0 ≡ ok tt
    → let r' = (detach_gateway env device r).1 in
      ((the_device device r').gateway ≡ none)
      × ((q : ℕ)
          → contains r'.gateway_sets q ≡ (
              contains r.gateway_sets q
              || ((others device g r == 0) && q == (r.gateway_at g).port_set)))
detach_gateway_outcome env device g r mine h done = elim (Bool-cases (others device g r == 0)) [
  | inl last ↦
      let e = detach-leave env device g r mine ∙ leave-last env device g r h last in
      rw e (last-Left env device g r last (rw e at done))
  | inr more ↦
      let e = detach-leave env device g r mine ∙ leave-more env device g r h more in
      rw e (more-Left env device g r more (rw e at done))
]
