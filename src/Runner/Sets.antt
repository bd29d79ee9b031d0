-- ===== src/Runner/Sets.antt =====
-- daq/runner.py: the pool of gateway sets.
use daq.Devices.{is_external}
use daq.Base.{
  ℕ, zero, suc, ◌<◌, String, ◌≡◌, refl, ◌⊎◌, inl, inr, Bool, true, false, not, ◌&&◌, Option, none,
  some, List, [], ◌∷◌, arith, Bool-cases, ◌==◌, nat_eq, string_eq, contains, discard, add,
  contains-discard, contains-add, pair_eq,
}
use daq.Base.Action.{Error, raised, ok, err}
use daq.Gateway
use daq.Gateway.{fresh_gateway, Gateway, Answers, GatewayKind, new_gateway}
use daq.Runner.{
  the_device, kind_of, build_gateway, group_gateway, Runner, Surroundings, the_port, choose_set,
  find_gateway_set, make_gateway, start_gateway, on_gateway_object,
}

choose_set_cases :
    (port : Option ℕ) (sets : List ℕ)
    → ((sets ≡ []) × (choose_set port sets ≡ none))
      ⊎ ((s : ℕ) × (choose_set port sets ≡ some s)
          × (contains sets s ≡ true)
          × ((p : ℕ) → port ≡ some p → contains sets p ≡ true → s ≡ p))
unfolding choose_set
choose_set_cases port [] = inl (refl, refl)
choose_set_cases none (s ∷ sets) = inr (s, refl, ground arith, λ p e h. absurd (ground arith))
choose_set_cases (some p) (s ∷ sets) = elim (Bool-cases (contains (s ∷ sets) p)) [
  | inl free ↦ inr (p, rw free, free, λ q e h. ground arith)
  | inr taken ↦ inr (s, rw taken, ground arith, λ q e h. absurd (ground arith))
]

find-none :
    (device : ℕ) (r : Runner)
    → choose_set (the_port device r).port_no r.gateway_sets ≡ none
    → find_gateway_set device r ≡ (err raised, r)
unfolding find_gateway_set
find-none device r h = rw h

abbrev taken_from : Runner → ℕ → Runner
taken_from r s = record r { gateway_sets = discard r.gateway_sets s }

find-some :
    (device s : ℕ) (r : Runner)
    → choose_set (the_port device r).port_no r.gateway_sets ≡ some s
    → find_gateway_set device r ≡ (ok s, taken_from r s)
unfolding find_gateway_set
find-some device s r h = rw h

-- A gateway set is refused, and nothing changes, exactly if no set is free; else the set that is given
-- was free and exactly it is no longer free, and it is the device's own port if that was free.
pub find_gateway_set_outcome :
    (device : ℕ) (r : Runner)
    → ((r.gateway_sets ≡ []) × (find_gateway_set device r ≡ (err raised, r)))
      ⊎ ((s : ℕ) × ((find_gateway_set device r).0 ≡ ok s)
          × (contains r.gateway_sets s ≡ true)
          × ((q : ℕ)
              → contains (find_gateway_set device r).1.gateway_sets q
                ≡ (contains r.gateway_sets q && not (q == s)))
          × ((p : ℕ)
              → (the_port device r).port_no ≡ some p
              → contains r.gateway_sets p ≡ true
              → s ≡ p))
find_gateway_set_outcome device r =
    elim (choose_set_cases (the_port device r).port_no r.gateway_sets) [
      | inl (empty, e) ↦ inl (empty, find-none device r e)
      | inr (s, e, free, own) ↦
          let f = find-some device s r e in
          inr (s, rw f, free, rw f (contains-discard r.gateway_sets s), own)
    ]

abbrev SamePool : List ℕ → Runner → Type 0
SamePool sets r = r.gateway_sets ≡ sets

make-pool :
    (kind : GatewayKind) (name : String) (set : ℕ) (native : Bool) (r : Runner)
    → (make_gateway kind name set native r).1.gateway_sets ≡ r.gateway_sets
unfolding make_gateway new_gateway
make-pool kind name set native r = ground arith

start-pool :
    (env : Surroundings) (native : Bool) (set g : ℕ) (r : Runner)
    → ((start_gateway env native set g r).0 ≡ ok tt)
        × ((start_gateway env native set g r).1.gateway_sets ≡ r.gateway_sets)
      ⊎ ((x : Error) × ((start_gateway env native set g r).0 ≡ err x)
          × ((start_gateway env native set g r).1.gateway_sets ≡ add r.gateway_sets set))
unfolding start_gateway on_gateway_object
start-pool env native set g r = ground arith

initialize-port_set :
    (net : Answers) (ends : Bool × Bool) (g : Gateway)
    → (Gateway.initialize net ends g).1.port_set ≡ g.port_set
unfolding Gateway.initialize
initialize-port_set net ends g = ground arith

build-pool :
    (env : Surroundings) (kind : GatewayKind) (name : String) (set : ℕ) (r : Runner)
    → 0 < set
    → let (result, r') = build_gateway env kind name set false r in
      ((result ≡ ok r.gateway_count)
        × (r'.gateway_sets ≡ r.gateway_sets)
        × ((r'.gateway_at r.gateway_count).port_set ≡ set))
      ⊎ ((x : Error) × (result ≡ err x) × (r'.gateway_sets ≡ add r.gateway_sets set))
unfolding build_gateway start_gateway make_gateway new_gateway on_gateway_object
build-pool env kind name set r h =
    ground
      (arith, initialize-port_set env.answers env.gateway_ends (fresh_gateway kind name set false))

positive : (s : ℕ) (sets : List ℕ) → contains sets 0 ≡ false → contains sets s ≡ true → 0 < s
positive zero sets h k = absurd (ground arith)
positive (suc s) sets h k = omega arith

group-none :
    (env : Surroundings) (device : ℕ) (r : Runner)
    → choose_set (the_port device r).port_no r.gateway_sets ≡ none
    → group_gateway env device r ≡ (err raised, r)
unfolding group_gateway
group-none env device r h = rw (find-none device r h)

group-some :
    (env : Surroundings) (device s : ℕ) (r : Runner)
    → choose_set (the_port device r).port_no r.gateway_sets ≡ some s
    → group_gateway env device r
      ≡ build_gateway env
          (kind_of (is_external (the_device device r).dhcp_mode))
          env.group
          s
          false
          (taken_from r s)
unfolding group_gateway
group-some env device s r h = rw (find-some device s r h)

contains-return :
    (sets : List ℕ) (s : ℕ)
    → contains sets s ≡ true
    → (q : ℕ) → contains (add (discard sets s) s) q ≡ contains sets q
contains-return sets s h q =
    ground (arith, contains-add (discard sets s) s q, contains-discard sets s q)

-- For a device whose group has no gateway: if the call fails, exactly the same sets are free as before;
-- if it succeeds, the new gateway has a set that was free, and exactly this one is no longer free.
pub group_gateway_outcome :
    (env : Surroundings) (device : ℕ) (r : Runner)
    → contains r.gateway_sets 0 ≡ false
    → let (result, r') = group_gateway env device r in
      ((result ≡ ok r.gateway_count)
        × (contains r.gateway_sets (r'.gateway_at r.gateway_count).port_set ≡ true)
        × ((q : ℕ)
            → contains r'.gateway_sets q
              ≡ (contains r.gateway_sets q && not (q == (r'.gateway_at r.gateway_count).port_set))))
      ⊎ ((x : Error) × (result ≡ err x)
          × ((q : ℕ) → contains r'.gateway_sets q ≡ contains r.gateway_sets q))
group_gateway_outcome env device r no_zero =
    elim (choose_set_cases (the_port device r).port_no r.gateway_sets) [
      | inl (empty, e) ↦ rw (group-none env device r e) (inr (raised, refl, λ q. refl))
      | inr (s, e, free, own) ↦
          rw (group-some env device s r e)
            (elim (build-pool env (kind_of (is_external (the_device device r).dhcp_mode)) env.group
              s (taken_from r s) (positive s r.gateway_sets no_zero free)) [
                | inl (result, pool, set) ↦
                    inl (
                      result,
                      rw set free,
                      λ q. rw (pool, set) (contains-discard r.gateway_sets s q),
                    )
                | inr (x, result, pool) ↦
                    inr (x, result, λ q. rw pool (contains-return r.gateway_sets s free q))
              ])
    ]
