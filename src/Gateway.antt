-- ===== src/Gateway.antt =====
-- daq/base_gateway.py (BaseGateway), daq/container_gateway.py and daq/external_gateway.py: the state
-- of a gateway and the methods that change it. A host or monitor of the network libraries is a flag
-- that says whether it is there. Devices are references, as in `Devices`.
pub mod Ports
pub mod Targets
pub mod Startup
mod Tests
use daq.Base.{
  ℕ, zero, suc, ◌+◌, ◌-◌, ◌*◌, ◌/◌, ◌%◌, ◌≤◌, ◌<◌, min, String, ◌≡◌, refl, sym, ap, ◌∙◌, subst, ◌≢◌,
  ◌↔◌, ◌⊎◌, inl, inr, Bool, true, false, not, ◌&&◌, ◌||◌, Option, none, some, List, [], ◌∷◌, ◌++◌,
  map, arith, ltb, leb, nat_beq, if◌then◌else◌, ltb→lt, lt→ltb, leb→le, nat_beq_iff, Bool-cases,
  Option-cases, is_some, Eq, ◌==◌, nat_eq, string_eq, beq_self, beq→eq, beq_false, length,
  length-append, select, any, all, nonempty, All, length-select, All-append, count_from, range,
  contains, discard, add, remove_first, IsDistinct, contains-append, contains-discard, contains-add,
  IsDistinct-append_one, IsDistinct-add, IsDistinct-discard, take, drop, take-append, drop-append,
  append_assoc, append_nil, pair_eq,
}
use daq.Base.Dict.{Dict, keys, values, get, has, insert, erase, get-insert, get-erase}
use daq.Base.Action.{
  Error, assertion, missing, attribute, raised, Result, ok, err, Action, pure, raise, gets,
  or_raise, try_except, skip, modify, assert, when, maybe, ◌>>=◌, ◌>>◌,
}
use daq.Base.Action.Preserves.{
  Preserves, Preserves-modify, Preserves-bind, Preserves-maybe, Preserves-after, Preserves-gets,
  Preserves-if, Preserves-raise, Preserves-assert, Preserves-try, preserves_rules,
}
use daq.Base.FirstFree.{first_free}

pub data GatewayKind : Type 0 where
  container_gateway external_gateway : GatewayKind

pub record Gateway : Type 0 where
  pub kind : GatewayKind
  pub name : String
  pub port_set : ℕ
  pub is_native : Bool
  pub host : Bool
  pub dummy : Bool
  pub fake_target : Bool
  pub targets : Dict String ℕ
  pub test_ports : List ℕ
  pub ready : List ℕ
  pub activated : Bool
  pub result_linger : Bool
  -- whether the DHCP monitor captures
  pub dhcp_monitor : Bool
  -- the startup scan, and whether its stream is open
  pub scan_monitor : Option Bool

abbrev pub gateway_offset : ℕ
gateway_offset = 0

abbrev pub dummy_offset : ℕ
dummy_offset = 1

abbrev pub test_offset_start : ℕ
test_offset_start = 2

abbrev pub num_set_ports : ℕ
num_set_ports = 6

abbrev pub set_spacing : ℕ
set_spacing = 10

abbrev pub ping_retry_count : ℕ
ping_retry_count = 5

abbrev pub fresh_gateway : GatewayKind → String → ℕ → Bool → Gateway
fresh_gateway kind name port_set is_native = record {
  kind = kind;
  name = name;
  port_set = port_set;
  is_native = is_native;
  host = false;
  dummy = false;
  fake_target = false;
  targets = [];
  test_ports = [];
  ready = [];
  activated = false;
  result_linger = false;
  dhcp_monitor = false;
  scan_monitor = none;
}

-- `__init__`: a port set must be positive.
unfoldable pub new_gateway : GatewayKind → String → ℕ → Bool → Result Gateway
new_gateway kind name port_set is_native =
    if ltb 0 port_set then ok (fresh_gateway kind name port_set is_native) else err assertion

unfoldable pub switch_port : Gateway → ℕ → ℕ
switch_port g offset = g.port_set * set_spacing + offset

-- The port of the gateway's host.
unfoldable pub host_port : Gateway → ℕ
unfolding switch_port
host_port g = if g.is_native then 1 else switch_port g gateway_offset

-- The `while` loop runs at most once for each port in use.
unfoldable pub allocate_test_port : Action Gateway ℕ
unfolding ◌>>=◌ switch_port
allocate_test_port = do
  test_port ←
      gets (λ g. first_free (length g.test_ports) (switch_port g test_offset_start) g.test_ports)
  limit_port ← gets (λ g. switch_port g num_set_ports)
  assert (ltb test_port limit_port)
  modify (λ g. record g { test_ports = add g.test_ports test_port })
  pure test_port

unfoldable pub release_test_port : ℕ → Action Gateway (Unit {0})
unfolding ◌>>=◌
release_test_port test_port = do
  assert (← gets (λ g. contains g.test_ports test_port))
  modify (λ g. record g { test_ports = discard g.test_ports test_port })

unfoldable pub get_possible_test_ports : Gateway → List ℕ
unfolding switch_port
get_possible_test_ports g = range (switch_port g test_offset_start) (switch_port g num_set_ports)

-- `target` is None or a dict with the key `mac`.
unfoldable pub is_target_expected : Gateway → Option String → Bool
is_target_expected g none = false
is_target_expected g (some mac) = has mac g.targets

pub data DhcpState : Type 0 where
  new done long error : DhcpState

-- `_dhcp_callback`: the state with which the runner's `ip_notify` is called, if it is called.
unfoldable pub dhcp_callback : Gateway → DhcpState → Option String → Bool → Option DhcpState
unfolding is_target_expected
dhcp_callback g state target exception =
    let expected = is_target_expected g target in
    let use_state = if g.is_native && not expected then new else state in
    if expected || g.is_native || exception then some use_state else none

unfoldable pub attach_target : String → ℕ → Action Gateway ℕ
unfolding ◌>>=◌
attach_target mac device = do
  assert (← gets (λ g. not (has mac g.targets)))
  modify (λ g. record g { targets = insert mac device g.targets })
  gets (λ g. length g.targets)

unfoldable pub detach_target : String → Action Gateway ℕ
unfolding ◌>>=◌
detach_target mac = do
  assert (← gets (λ g. has mac g.targets))
  modify (λ g. record g { targets = erase mac g.targets })
  gets (λ g. length g.targets)

unfoldable pub target_ready : ℕ → Action Gateway (List ℕ)
unfolding ◌>>=◌
target_ready device = do modify (λ g. record g { ready = add g.ready device }); gets (λ g. g.ready)

-- `_scan_finalize`: a startup scan is dropped, and its stream must be open exactly if it is to be
-- forgotten.
unfoldable pub scan_finalize : Bool → Action Gateway (Unit {0})
unfolding ◌>>=◌
scan_finalize forget = do
  monitor ← gets (λ g. g.scan_monitor)
  elim monitor [
    | none ↦ skip
    | some active ↦ do
      assert (if forget then active else not active)
      modify (λ g. record g { scan_monitor = none })
  ]

abbrev pub is_container : Gateway → Bool
is_container g = elim g.kind [ container_gateway ↦ true | external_gateway ↦ false ]

unfoldable pub activate : Action Gateway (Unit {0})
unfolding ◌>>=◌ scan_finalize
activate = do
  modify (λ g. record g { activated = true })
  container ← gets (λ g. is_container g)
  when container (scan_finalize true)

-- `BaseGateway.terminate`; `ends` says of the host and of the dummy whether their own termination
-- goes through, since an exception of either is logged and the reference stays.
unfoldable pub base_terminate : Bool × Bool → Action Gateway (Unit {0})
unfolding ◌>>=◌
base_terminate ends = do
  assert (← gets (λ g. not (nonempty g.targets)))
  modify (λ g. record g {
    dhcp_monitor = false;
    host = g.host && not ends.0;
    dummy = g.dummy && not ends.1;
  })

unfoldable pub terminate : Bool × Bool → Action Gateway (Unit {0})
unfolding ◌>>=◌ base_terminate scan_finalize
terminate ends = do
  base_terminate ends
  container ← gets (λ g. is_container g)
  when container (scan_finalize true)

-- The warmup loop of `_initialize`; `ping k` is the answer to the k-th ping. The result counts the
-- pings that were sent, and none is the failed assert on `ping_retry`.
unfoldable pub warmup : (ℕ → Bool) → ℕ → ℕ → Option ℕ
warmup ping zero k = none
warmup ping (suc ping_retry) k =
    let retry = warmup ping ping_retry (k + 1) in
    if ping k then some (k + 1) else if ping_retry == 0 then none else retry

-- What the network answers: whether the host and the dummy can be added, and the pings.
pub record Answers : Type 0 where
  pub add_host : Bool
  pub add_dummy : Bool
  pub ping : ℕ → Bool

abbrev succeed : Bool → Action Gateway (Unit {0})
unfolding ◌>>=◌
succeed b = or_raise (if b then some tt else none) raised

unfoldable pub connect_hosts : Answers → Action Gateway (Unit {0})
unfolding ◌>>=◌
connect_hosts net = do
  succeed net.add_dummy
  modify (λ g. record g { dummy = true })
  modify (λ g. record g { fake_target = true })
  sent ← or_raise (warmup net.ping ping_retry_count 0) assertion
  assert (net.ping sent)
  assert (net.ping (sent + 1))
  assert (net.ping (sent + 2))
  assert (net.ping (sent + 3))

unfoldable pub base_initialize : Answers → Action Gateway (Unit {0})
unfolding ◌>>=◌ connect_hosts
base_initialize net = do
  succeed net.add_host
  modify (λ g. record g { host = true })
  native ← gets (λ g. g.is_native)
  when (not native) (connect_hosts net)

unfoldable pub start_monitors : Action Gateway (Unit {0})
unfolding ◌>>=◌
start_monitors = do
  container ← gets (λ g. is_container g)
  when container do
    scanning ← gets (λ g. is_some g.scan_monitor)
    assert (not scanning)
    modify (λ g. record g { scan_monitor = some true })
  modify (λ g. record g { dhcp_monitor = true })

-- A failed initialization terminates the gateway and raises the exception again.
unfoldable pub initialize : Answers → Bool × Bool → Action Gateway (Unit {0})
unfolding ◌>>=◌ base_initialize start_monitors terminate
initialize net ends =
    try_except (base_initialize net >> start_monitors) (λ x. terminate ends >> raise x)
