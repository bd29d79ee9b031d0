-- ===== src/Runner/Flapping.antt =====
-- daq/runner.py: ports that go up and down.
use daq.Base.{
  ℕ, ◌+◌, ◌<◌, ◌≡◌, ◌≢◌, inl, inr, true, false, Option, none, some, arith, if◌then◌else◌,
  Bool-cases, Option-cases, nat_eq, string_eq, beq_self, beq_false, pair_eq,
}
use daq.Base.Dict.{get, get-insert}
use daq.Base.Action.{ok, Action}
use daq.Devices.{truthy, get_by_port_info, new_port_info}
use daq.Runner.{
  Runner, Config, Surroundings, the_device, the_port, activate_port, ensure_port, is_port_active,
  on_port, on_registry, port_down, start_flapping, reap_port,
}

-- An active event always succeeds: the port is then known and active with no flapping, and all other
-- port numbers name the same port objects as before.
pub activate_port_outcome :
    (port : ℕ) (r : Runner)
    → let (result, r') = activate_port port r in
      (result ≡ ok tt)
      × (is_port_active port r' ≡ true)
      × ((p : ℕ) → get port r'.ports ≡ some p → (r'.registry.port_at p).flapping_start ≡ some 0)
      × ((q : ℕ) → q ≢ port → get q r'.ports ≡ get q r.ports)
unfolding activate_port ensure_port is_port_active on_port on_registry new_port_info
activate_port_outcome port r = elim (Option-cases (get port r.ports)) [
  | inl new ↦ (
    ground arith,
    ground (arith, get-insert port port r.registry.port_count r.ports, beq_self port),
    λ p h. ground (arith, get-insert port port r.registry.port_count r.ports, beq_self port),
    λ q ne. ground (arith, get-insert q port r.registry.port_count r.ports, beq_false q port ne),
  )
  | inr (p, known) ↦ (ground arith, ground arith, λ p h. ground arith, λ q ne. ground arith)
]

-- When the active port of a device with a host goes down, the port becomes inactive and its flapping
-- starts now, unless it has started before; the traffic stays directed, so this cannot fail.
pub port_down_flaps :
    (env : Surroundings) (p device host : ℕ) (r : Runner)
    → 0 < env.now
    → get_by_port_info p r.registry ≡ some device
    → (the_device device r).host ≡ some host
    → (r.registry.port_at p).active ≡ true
    → let (result, r') = port_down env p r in
      (result ≡ ok tt)
      × ((r'.registry.port_at p).active ≡ false)
      × ((r'.registry.port_at p).flapping_start ≡ (
          if truthy (r.registry.port_at p).flapping_start
          then (r.registry.port_at p).flapping_start
          else some env.now))
unfolding port_down start_flapping on_port
port_down_flaps env p device host r h e k a =
    elim (Bool-cases (truthy (r.registry.port_at p).flapping_start)) [
      | inl flapping ↦ ground arith
      | inr steady ↦ ground arith
    ]

-- A port that does not flap, or not yet for the whole timeout, is not given up.
pub reap_port_early :
    (config : Config) (env : Surroundings) (drain : Action Runner (Unit {0}))
    (timeout : ℕ → Option ℕ) (device : ℕ) (r : Runner)
    → ((since : ℕ)
        → (the_port device r).flapping_start ≡ some since
        → since ≢ 0
        → (env.now < since + config.port_flap_timeout) × (timeout device ≡ none))
    → reap_port config env drain timeout device r ≡ (ok tt, r)
unfolding reap_port
reap_port_early config env drain timeout device r h =
    elim (Option-cases (the_port device r).flapping_start) [
      | inl steady ↦ rw steady
      | inr (since, e) ↦ ground (arith, h since e)
    ]
