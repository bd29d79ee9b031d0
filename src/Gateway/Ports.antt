-- ===== src/Gateway/Ports.antt =====
-- daq/base_gateway.py: the switch ports of a gateway's test hosts.
use native.Mathlib.Decide.{dec_lt}
use daq.Base.{
  ℕ, ◌+◌, ◌*◌, ◌≤◌, ◌<◌, ◌≡◌, ◌∙◌, ◌⊎◌, inl, inr, true, false, ◌||◌, arith, lt→ltb, ◌==◌, nat_eq,
  string_eq, length, contains, add, IsDistinct, contains-discard, contains-add, IsDistinct-add,
}
use daq.Base.Action.{assertion, ok, err}
use daq.Base.FirstFree.{first_free, first_free-fresh, first_free-le, first_free-least}
use daq.Gateway.{Gateway, allocate_test_port, release_test_port}

abbrev chosen : Gateway → ℕ
chosen g = first_free (length g.test_ports) (g.port_set * 10 + 2) g.test_ports

abbrev with_port : Gateway → ℕ → Gateway
with_port g p = record g { test_ports = add g.test_ports p }

allocate-some :
    (g : Gateway)
    → chosen g < g.port_set * 10 + 6
    → allocate_test_port g ≡ (ok (chosen g), with_port g (chosen g))
unfolding allocate_test_port
allocate-some g h = rw (lt→ltb _ _ h)

allocate-none :
    (g : Gateway) → g.port_set * 10 + 6 ≤ chosen g → allocate_test_port g ≡ (err assertion, g)
unfolding allocate_test_port
allocate-none g h = ground arith

allocate_cases :
    (g : Gateway)
    → (chosen g < g.port_set * 10 + 6)
        × (allocate_test_port g ≡ (ok (chosen g), with_port g (chosen g)))
      ⊎ (g.port_set * 10 + 6 ≤ chosen g) × (allocate_test_port g ≡ (err assertion, g))
allocate_cases g = elim (dec_lt (chosen g) (g.port_set * 10 + 6)) [
  | yes h ↦ inl (h, allocate-some g h)
  | no h ↦ inr (omega arith, allocate-none g (omega arith))
]

-- The outcome of a successful call.
allocated :
    (g : Gateway) (p : ℕ)
    → (allocate_test_port g).0 ≡ ok p
    → (p ≡ chosen g)
      × (chosen g < g.port_set * 10 + 6)
      × ((allocate_test_port g).1 ≡ with_port g (chosen g))
allocated g p h = elim (allocate_cases g) [
  | inl (below, e) ↦ (ground arith, below, cc)
  | inr (above, e) ↦ absurd (ground arith)
]

-- The test ports in use are distinct and lie in the gateway's own range.
pub record IsPortValid (g : Gateway) : Type 0 where
  pub distinct : IsDistinct g.test_ports
  pub in_range :
      (p : ℕ)
      → contains g.test_ports p ≡ true
      → (g.port_set * 10 + 2 ≤ p) × (p < g.port_set * 10 + 6)

-- A port that is allocated was free, lies in the gateway's range and is in use afterwards; the other
-- ports keep their state, and the ports stay valid.
pub allocate_test_port-IsPortValid :
    (g : Gateway) (p : ℕ)
    → IsPortValid g
    → (allocate_test_port g).0 ≡ ok p
    → let g' = (allocate_test_port g).1 in
      IsPortValid g'
      × (contains g.test_ports p ≡ false)
      × (g.port_set * 10 + 2 ≤ p)
      × (p < g.port_set * 10 + 6)
      × ((q : ℕ) → contains g'.test_ports q ≡ (contains g.test_ports q || q == p))
allocate_test_port-IsPortValid g p valid h =
    let (ep, below, e) = allocated g p h in
    let new = contains-add g.test_ports (chosen g) in
    rw (e, ep)
      (
        record {
          distinct = IsDistinct-add g.test_ports (chosen g) valid.distinct;
          in_range = λ q used. in_range q used;
        },
        first_free-fresh _ g.test_ports,
        first_free-le (length g.test_ports) _ g.test_ports,
        below,
        new,
      )
  where
    in_range :
        (q : ℕ)
        → contains (add g.test_ports (chosen g)) q ≡ true
        → (g.port_set * 10 + 2 ≤ q) × (q < g.port_set * 10 + 6)
    in_range q used = grind (
      arith,
      contains-add g.test_ports (chosen g) q,
      valid.in_range q,
      (allocated g p h).1,
      first_free-le (length g.test_ports) (g.port_set * 10 + 2) g.test_ports,
    )

-- No port is allocated exactly if all four ports of the gateway are in use; then nothing changes.
pub allocate_test_port_exhausted :
    (g : Gateway)
    → ((allocate_test_port g ≡ (err assertion, g))
        × ((q : ℕ)
            → g.port_set * 10 + 2 ≤ q
            → q < g.port_set * 10 + 6
            → contains g.test_ports q ≡ true))
      ⊎ ((p : ℕ) × ((allocate_test_port g).0 ≡ ok p)
          × (contains g.test_ports p ≡ false)
          × (g.port_set * 10 + 2 ≤ p)
          × (p < g.port_set * 10 + 6))
allocate_test_port_exhausted g = elim (allocate_cases g) [
  | inl (below, e) ↦ inr (
    chosen g,
    rw e,
    first_free-fresh _ g.test_ports,
    first_free-le (length g.test_ports) _ g.test_ports,
    below,
  )
  | inr (above, e) ↦
      inl
        (e, λ q low high. first_free-least (length g.test_ports) _ q g.test_ports low (omega arith))
]

-- Releasing the port that was allocated brings back the ports in use.
pub release-allocate_test_port :
    (g : Gateway) (p : ℕ)
    → (allocate_test_port g).0 ≡ ok p
    → let (result, g'') = release_test_port p (allocate_test_port g).1 in
      (result ≡ ok tt) × ((q : ℕ) → contains g''.test_ports q ≡ contains g.test_ports q)
unfolding release_test_port
release-allocate_test_port g p h =
    let (ep, below, e) = allocated g p h in rw (e, ep) (released, again)
  where
    held : contains (add g.test_ports (chosen g)) (chosen g) ≡ true
    held = contains-add g.test_ports (chosen g) (chosen g) ∙ ground arith

    released : (release_test_port (chosen g) (with_port g (chosen g))).0 ≡ ok tt
    released = rw held

    again :
        (q : ℕ)
        → contains (release_test_port (chosen g) (with_port g (chosen g))).1.test_ports q
          ≡ contains g.test_ports q
    again q = rw held (
        ground (
          arith,
          contains-discard (add g.test_ports (chosen g)) (chosen g) q,
          contains-add g.test_ports (chosen g) q,
          first_free-fresh (g.port_set * 10 + 2) g.test_ports,
        ))
