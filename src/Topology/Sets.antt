-- ===== src/Topology/Sets.antt =====
-- daq/topology.py: the switch ports of the gateway sets.
use daq.Base.{
  ℕ, zero, suc, ◌+◌, ◌-◌, ◌*◌, ◌≤◌, ◌<◌, ◌≡◌, refl, ◌≢◌, ◌↔◌, inl, inr, true, false, arith,
  Bool-cases, nat_eq, string_eq, count_from, contains, pair_eq,
}
use daq.Gateway.{Gateway, get_possible_test_ports, host_port, switch_port, dummy_offset}
use daq.Topology.{get_gw_ports}

contains-count_from :
    (n lo p : ℕ) → (contains (count_from lo n) p ≡ true) ↔ ((lo ≤ p) × (p < lo + n))
contains-count_from zero lo p = (λ h. absurd (ground arith), λ h. absurd (omega arith))
contains-count_from (suc n) lo p = (
  λ h. ground (arith, (contains-count_from n (lo + 1) p).0),
  λ h. ground (arith, (contains-count_from n (lo + 1) p).1),
)

pub gw-member : (s p : ℕ) → (contains (get_gw_ports s) p ≡ true) ↔ ((10 * s ≤ p) × (p < 10 * s + 6))
unfolding get_gw_ports
gw-member s p =
    let m = contains-count_from (10 * s + 6 - 10 * s) (10 * s) p in
    (λ h. ((m.0 h).0, omega (arith, (m.0 h).1)), λ h. m.1 (h.0, omega (arith, h.1)))

test-member :
    (g : Gateway) (p : ℕ)
    → contains (get_possible_test_ports g) p ≡ true
    → (g.port_set * 10 + 2 ≤ p) × (p < g.port_set * 10 + 6)
unfolding get_possible_test_ports switch_port
test-member g p h =
    let s = g.port_set in
    let m = contains-count_from (s * 10 + 6 - (s * 10 + 2)) (s * 10 + 2) p in
    ((m.0 h).0, omega (arith, (m.0 h).1))

-- The ports of two different gateway sets are disjoint, and the ports of a gateway's own set hold all ports
-- that it may give to test hosts. They hold the ports of its host and its dummy if it is not native; the
-- host of a native gateway has port 1, which is in no set but that of number 0.
pub get_gw_ports_apart :
    (g : Gateway) (other p : ℕ)
    → (g.port_set ≢ other
        → contains (get_gw_ports g.port_set) p ≡ true
        → contains (get_gw_ports other) p ≡ false)
      × (contains (get_possible_test_ports g) p ≡ true
          → contains (get_gw_ports g.port_set) p ≡ true)
      × (g.is_native ≡ false
          → (contains (get_gw_ports g.port_set) (host_port g) ≡ true)
            × (contains (get_gw_ports g.port_set) (switch_port g dummy_offset) ≡ true))
      × (g.is_native ≡ true
          → (host_port g ≡ 1) × (other ≢ 0 → contains (get_gw_ports other) (host_port g) ≡ false))
unfolding switch_port host_port
get_gw_ports_apart g other p = (
  λ ne h. elim (Bool-cases (contains (get_gw_ports other) p)) [
    | inl shared ↦
        absurd (omega (arith, ne, (gw-member g.port_set p).0 h, (gw-member other p).0 shared))
    | inr free ↦ free
  ],
  λ h.
      let b = test-member g p h in
      (gw-member g.port_set p).1 (omega (arith, b.0), omega (arith, b.1)),
  λ plain. rw plain (
    (gw-member g.port_set _).1 (omega arith, omega arith),
    (gw-member g.port_set _).1 (omega arith, omega arith),
  ),
  λ native. rw native (
    refl,
    λ ne. elim (Bool-cases (contains (get_gw_ports other) 1)) [
      | inl held ↦ absurd (omega (arith, ne, (gw-member other 1).0 held))
      | inr free ↦ free
    ],
  ),
)
