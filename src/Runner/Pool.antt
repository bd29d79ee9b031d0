-- ===== src/Runner/Pool.antt =====
-- daq/runner.py: `_find_gateway_set`, `_create_gateway` and `_detach_gateway`.
use daq.Base.{
  ℕ, ◌+◌, String, Bool, true, false, not, ◌||◌, Option, none, some, List, [], ◌∷◌, leb,
  if◌then◌else◌, is_some, ◌==◌, nat_eq, string_eq, length, contains, discard, add,
}
use daq.Base.Action.{
  assertion, raised, ok, err, Action, pure, raise, gets, or_raise, try_except, skip, modify, assert,
  when, maybe, ◌>>=◌, ◌>>◌,
}
use daq.Devices.{truthy, Registry, update, get_by_group, is_external}
use daq.Gateway
use daq.Gateway.{
  Gateway, GatewayKind, container_gateway, external_gateway, Answers, new_gateway, detach_target,
  activate,
}
use daq.Runner.State.{
  Runner, Surroundings, on_gateway_object, on_device, the_device, the_port, succeeds,
}

-- The device's own port if it is free, else any free set.
unfoldable pub choose_set : Option ℕ → List ℕ → Option ℕ
choose_set port [] = none
choose_set none (s ∷ sets) = some s
choose_set (some port) (s ∷ sets) = if contains (s ∷ sets) port then some port else some s

unfoldable pub find_gateway_set : ℕ → Action Runner ℕ
unfolding ◌>>=◌ choose_set
find_gateway_set device = do
  chosen ← gets (λ r. choose_set (the_port device r).port_no r.gateway_sets)
  set ← or_raise chosen raised
  modify (λ r. record r { gateway_sets = discard r.gateway_sets set })
  pure set

-- The constructor: the reference to a new gateway.
unfoldable pub make_gateway : GatewayKind → String → ℕ → Bool → Action Runner ℕ
unfolding ◌>>=◌ new_gateway
make_gateway kind name set is_native = do
  made ← gets (λ r. new_gateway kind name set is_native)
  gateway ← or_raise (elim made [ ok g ↦ some g | err _ ↦ none ]) assertion
  g ← gets (λ r. r.gateway_count)
  modify (λ r. record r { gateway_at = update r.gateway_at g gateway; gateway_count = g + 1 })
  pure g

-- The `try` around `initialize`: a set is free again if the gateway does not start.
unfoldable pub start_gateway : Surroundings → Bool → ℕ → ℕ → Action Runner (Unit {0})
unfolding ◌>>=◌ on_gateway_object
start_gateway env is_native set g =
    try_except
      (on_gateway_object g (Gateway.initialize env.answers env.gateway_ends)
        >> assert (not is_native || env.native_interface))
      (λ x. modify (λ r. record r { gateway_sets = add r.gateway_sets set }) >> raise x)

unfoldable pub build_gateway : Surroundings → GatewayKind → String → ℕ → Bool → Action Runner ℕ
unfolding ◌>>=◌ make_gateway start_gateway on_gateway_object
build_gateway env kind name set is_native = do
  g ← make_gateway kind name set is_native
  start_gateway env is_native set g
  when is_native (on_gateway_object g activate)
  pure g

-- The gateways of the devices of a group.
unfoldable pub collect_gateways : Registry → List ℕ → List ℕ
collect_gateways r [] = []
collect_gateways r (o ∷ os) = elim (r.device_at o).gateway [
  | none ↦ collect_gateways r os
  | some g ↦ add (collect_gateways r os) g
]

abbrev pub kind_of : Bool → GatewayKind
kind_of true = external_gateway
kind_of false = container_gateway

abbrev first_of : List ℕ → Option ℕ
first_of [] = none
first_of (g ∷ gs) = some g

-- `_create_gateway` for a device that no gateway serves yet.
unfoldable pub group_gateway : Surroundings → ℕ → Action Runner ℕ
unfolding ◌>>=◌ find_gateway_set build_gateway
group_gateway env device = do
  set ← find_gateway_set device
  external ← gets (λ r. is_external (the_device device r).dhcp_mode)
  build_gateway env (kind_of external) env.group set false

unfoldable pub create_device_gateway : Surroundings → ℕ → Action Runner ℕ
unfolding ◌>>=◌ collect_gateways
create_device_gateway env device = do
  existing ← gets (λ r. collect_gateways r.registry (get_by_group env.group r.registry))
  assert (leb (length existing) 1)
  maybe (first_of existing) (group_gateway env device) pure

-- `_create_gateway` of a device, or of none for the native gateway; the group of a device has been
-- set to that of the surroundings.
unfoldable pub create_gateway : Surroundings → Option ℕ → Action Runner ℕ
unfolding ◌>>=◌ build_gateway
create_gateway env none = do
  native ← gets (λ r. is_some r.native_gateway)
  assert (not native)
  build_gateway env container_gateway "native" 1 true
create_gateway env (some device) = do
  native ← gets (λ r. r.native_gateway)
  maybe native (create_device_gateway env device) pure

-- The last target of a gateway is gone: the gateway ends and its set is free.
unfoldable pub retire_gateway : Surroundings → ℕ → ℕ → Action Runner (Unit {0})
unfolding ◌>>=◌ on_gateway_object
retire_gateway env device g = do
  on_gateway_object g (Gateway.terminate env.gateway_ends)
  modify (λ r. record r { gateway_sets = add r.gateway_sets (r.gateway_at g).port_set })
  vlan ← gets (λ r. truthy (the_device device r).vlan)
  when vlan (succeeds env.directs)

unfoldable pub leave_gateway : Surroundings → ℕ → ℕ → Action Runner (Unit {0})
unfolding ◌>>=◌ on_gateway_object retire_gateway on_device
leave_gateway env device g = do
  mac ← gets (λ r. (the_device device r).mac)
  left ← on_gateway_object g (detach_target mac)
  when (left == 0) (retire_gateway env device g)
  on_device device (λ d. record d { gateway = none })

unfoldable pub detach_gateway : Surroundings → ℕ → Action Runner (Unit {0})
unfolding ◌>>=◌
detach_gateway env device = do
  gateway ← gets (λ r. (the_device device r).gateway)
  maybe gateway skip (leave_gateway env device)
