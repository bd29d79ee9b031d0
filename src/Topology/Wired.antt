-- ===== src/Topology/Wired.antt =====
-- daq/topology.py: the interfaces of the primary switch do not overwrite one another.
use daq.Base.{
  ℕ, zero, suc, ◌+◌, ◌-◌, ◌≤◌, ◌<◌, ◌≡◌, refl, ap, ◌∙◌, ◌≢◌, inl, inr, true, false, some, List, [],
  ◌∷◌, arith, if◌then◌else◌, Bool-cases, ◌==◌, nat_eq, string_eq, beq→eq, beq_false, count_from,
  range, contains, pair_eq,
}
use daq.Base.Dict.{Dict, get, insert, get-insert}
use daq.Topology.{Topology, mirror_port, mirror_port_base, get_gw_ports}
use daq.Topology.Sets.{gw-member}
use daq.Topology.Interfaces.{
  base_interfaces, Interface, Settings, set_interfaces, add_port_set, add_port_sets,
  make_gw_interface, make_mirror_interface, make_pri_interfaces, base_interfaces,
  make_local_interface,
}

get-set_interfaces :
    (p : ℕ) (ports : List ℕ) (interface : Interface) (interfaces : Dict ℕ Interface)
    → get p (set_interfaces ports interface interfaces)
      ≡ (if contains ports p then some interface else get p interfaces)
get-set_interfaces p [] interface interfaces = refl
get-set_interfaces p (port ∷ ports) interface interfaces = ground (
  arith,
  get-set_interfaces p ports interface (insert port interface interfaces),
  get-insert p port interface interfaces,
)

not_of_other :
    (p port_set other : ℕ)
    → contains (get_gw_ports port_set) p ≡ true
    → other ≢ port_set
    → contains (get_gw_ports other) p ≡ false
not_of_other p port_set other member ne = elim (Bool-cases (contains (get_gw_ports other) p)) [
  | inl shared ↦
      absurd (omega (arith, ne, (gw-member port_set p).0 member, (gw-member other p).0 shared))
  | inr free ↦ free
]

module _ (settings : Settings) where
  get-port_set :
      (p port_set : ℕ) (interfaces : Dict ℕ Interface)
      → p < 1000
      → get p (add_port_set settings port_set interfaces) ≡ (
          if contains (get_gw_ports port_set) p
          then some (make_gw_interface settings port_set)
          else get p interfaces)
  unfolding add_port_set mirror_port
  get-port_set p port_set interfaces low =
      let made =
        set_interfaces (get_gw_ports port_set) (make_gw_interface settings port_set) interfaces in
      ground (
        arith,
        get-insert p (mirror_port port_set) make_mirror_interface made,
        get-set_interfaces p (get_gw_ports port_set) (make_gw_interface settings port_set)
            interfaces,
      )

  get-port_sets_kept :
      (p port_set n lo : ℕ) (interfaces : Dict ℕ Interface)
      → p < 1000
      → contains (get_gw_ports port_set) p ≡ true
      → port_set < lo
      → get p (add_port_sets settings (count_from lo n) interfaces) ≡ get p interfaces
  unfolding add_port_sets
  get-port_sets_kept p port_set zero lo interfaces low member past = refl
  get-port_sets_kept p port_set (suc n) lo interfaces low member past =
      get-port_sets_kept p port_set n (lo + 1) (add_port_set settings lo interfaces) low member
        (omega arith)
      ∙ get-port_set p lo interfaces low
      ∙ ap (λ b. if b then some (make_gw_interface settings lo) else get p interfaces)
          (not_of_other p port_set lo member (λ e. omega (arith, e)))

  get-port_sets :
      (p port_set n lo : ℕ) (interfaces : Dict ℕ Interface)
      → p < 1000
      → contains (get_gw_ports port_set) p ≡ true
      → lo ≤ port_set
      → port_set < lo + n
      → get p (add_port_sets settings (count_from lo n) interfaces)
        ≡ some (make_gw_interface settings port_set)
  unfolding add_port_sets
  get-port_sets p port_set zero lo interfaces low member above below = absurd (omega arith)
  get-port_sets p port_set (suc n) lo interfaces low member above below =
      elim (Bool-cases (lo == port_set)) [
        | inl same ↦
            let e = beq→eq lo port_set same in
            get-port_sets_kept p port_set n (lo + 1) (add_port_set settings lo interfaces) low
              member (omega (arith, e))
            ∙ get-port_set p lo interfaces low
            ∙ rw (e, member) refl
        | inr other ↦
            get-port_sets p port_set n (lo + 1) (add_port_set settings lo interfaces) low member
              (ground arith) (omega arith)
      ]

below_mirrors :
    (p port_set sec_port : ℕ)
    → sec_port ≤ 100
    → port_set < sec_port
    → contains (get_gw_ports port_set) p ≡ true
    → p < 1000
below_mirrors p port_set sec_port few high member = omega (arith, (gw-member port_set p).0 member)

-- The gateway ports are wired to their port set. With at most 100 ports below the uplink, every port of
-- every gateway set has the interface of that set in the primary switch: no trunk, mirror or local
-- interface and no other set takes its number.
pub make_pri_interfaces-gw :
    (settings : Settings) (t : Topology) (port_set p : ℕ)
    → t.sec_port ≤ 100
    → 1 ≤ port_set
    → port_set < t.sec_port
    → contains (get_gw_ports port_set) p ≡ true
    → get p (make_pri_interfaces settings t) ≡ some (make_gw_interface settings port_set)
unfolding make_pri_interfaces
make_pri_interfaces-gw settings t port_set p few low high member =
    let below = below_mirrors p port_set t.sec_port few high member in
    get-insert p mirror_port_base make_local_interface
      (add_port_sets settings (range 1 t.sec_port) (base_interfaces settings t))
    ∙ rw (beq_false p mirror_port_base (λ e. omega (arith, e, below))) (
        get-port_sets settings p port_set (t.sec_port - 1) 1 (base_interfaces settings t) below
          member low (omega arith))
