-- ===== src/Devices.antt =====
-- daq/runner.py: PortInfo, IpInfo, Device and the container Devices. Objects live on a heap and are
-- referred to by number, so that two variables may name one object, as in the source; `is` and the
-- default `==` of objects compare these numbers.
mod Objects
pub mod Allocation
pub mod Invariant
pub mod Container
mod Tests
unfoldable pub use Objects.*
use daq.Base.{
  ℕ, zero, suc, ◌+◌, ◌-◌, ◌*◌, ◌/◌, ◌%◌, ◌≤◌, ◌<◌, min, String, ◌≡◌, refl, sym, ap, ◌∙◌, subst, ◌≢◌,
  ◌↔◌, ◌⊎◌, inl, inr, Bool, true, false, not, ◌&&◌, ◌||◌, Option, none, some, List, [], ◌∷◌, ◌++◌,
  map, arith, ltb, leb, nat_beq, if◌then◌else◌, ltb→lt, lt→ltb, leb→le, nat_beq_iff, Bool-cases,
  Option-cases, is_some, Eq, ◌==◌, nat_eq, string_eq, beq_self, beq→eq, beq_false, length,
  length-append, select, any, all, nonempty, All, length-select, All-append, count_from, range,
  contains, discard, add, remove_first, IsDistinct, contains-append, contains-discard, contains-add,
  IsDistinct-append_one, IsDistinct-add, IsDistinct-discard,
}
use daq.Base.Dict.{Dict, keys, values, get, has, insert, erase, get-insert, get-erase}
use daq.Base.Action.{
  Error, assertion, missing, attribute, raised, Result, ok, err, Action, pure, raise, gets,
  or_raise, try_except, skip, modify, assert, when, maybe, ◌>>=◌, ◌>>◌,
}
use daq.Base.Action.Preserves.{Preserves, Preserves-modify, preserves_rules}
use daq.Base.FirstFree.{first_free}

pub record Registry : Type 0 where
  pub device_at : ℕ → Device
  pub device_count : ℕ
  pub port_at : ℕ → PortInfo
  pub port_count : ℕ
  -- `Devices._devices` and `Devices._set_ids`
  pub devices : Dict String ℕ
  pub set_ids : List ℕ

-- The `while` loop runs at most once for each id in use.
unfoldable pub allocate_set_id : List ℕ → ℕ
unfolding first_free
allocate_set_id set_ids = first_free (length set_ids) 1 set_ids

-- `PortInfo()`: the reference to a new object.
unfoldable pub new_port_info : Action Registry ℕ
unfolding ◌>>=◌
new_port_info = do
  port ← gets (λ r. r.port_count)
  modify (λ r. record r {
    port_at = update r.port_at r.port_count fresh_port;
    port_count = r.port_count + 1;
  })
  pure port

-- The port given, or a new one: `port_info if port_info else PortInfo()`.
unfoldable pub port_or_new : Option ℕ → Action Registry ℕ
unfolding ◌>>=◌ new_port_info
port_or_new (some port) = pure port
port_or_new none = new_port_info

-- `port_no if port_no else self._allocate_set_id()`
unfoldable pub choose_set_id : Option ℕ → List ℕ → ℕ
unfolding allocate_set_id
choose_set_id none set_ids = allocate_set_id set_ids
choose_set_id (some zero) set_ids = allocate_set_id set_ids
choose_set_id (some (suc n)) set_ids = suc n

-- `Device()`, put into the dict under its mac, with its port and vlan.
unfoldable pub enter_device : String → ℕ → Option ℕ → Action Registry ℕ
unfolding ◌>>=◌
enter_device mac port vlan = do
  device ← gets (λ r. r.device_count)
  modify (λ r. record r {
    device_at = update r.device_at r.device_count (fresh_device mac port vlan);
    device_count = r.device_count + 1;
    devices = insert mac r.device_count r.devices;
  })
  pure device

unfoldable pub claim_set_id : ℕ → ℕ → Action Registry (Unit {0})
unfolding ◌>>=◌
claim_set_id device set_id = do
  taken ← gets (λ r. contains r.set_ids set_id)
  assert (not taken)
  modify (λ r. record r {
    set_ids = add r.set_ids set_id;
    device_at = update r.device_at device (record (r.device_at device) { set_id = some set_id });
  })

-- The device is in the dict before the test on its set id.
unfoldable pub new_device : String → Option ℕ → Option ℕ → Action Registry ℕ
unfolding ◌>>=◌ port_or_new enter_device choose_set_id claim_set_id
new_device mac port_info vlan = do
  known ← gets (λ r. has mac r.devices)
  assert (not known)
  port ← port_or_new port_info
  device ← enter_device mac port vlan
  set_id ← gets (λ r. choose_set_id (r.port_at port).port_no r.set_ids)
  claim_set_id device set_id
  pure device

unfoldable pub create_if_absent : String → Option ℕ → Option ℕ → Action Registry ℕ
unfolding ◌>>=◌
create_if_absent mac port_info vlan = do
  prev_device ← gets (λ r. get mac r.devices)
  elim prev_device [ some device ↦ pure device | none ↦ new_device mac port_info vlan ]

-- `self._devices.get(device.mac) == device`
unfoldable pub holds : Registry → ℕ → Bool
holds r device = elim (get (r.device_at device).mac r.devices) [
  | none ↦ false
  | some found ↦ found == device
]

-- `set.remove` raises a KeyError where the element, here also None, is not there.
unfoldable pub release_set_id : Option ℕ → Action Registry (Unit {0})
unfolding ◌>>=◌
release_set_id set_id = do
  n ← or_raise set_id missing
  held ← gets (λ r. contains r.set_ids n)
  or_raise (if held then some tt else none) missing
  modify (λ r. record r { set_ids = discard r.set_ids n })

unfoldable pub remove : ℕ → Action Registry (Unit {0})
unfolding ◌>>=◌ release_set_id
remove device = do
  assert (← gets (λ r. holds r device))
  modify (λ r. record r { devices = erase (r.device_at device).mac r.devices })
  set_id ← gets (λ r. (r.device_at device).set_id)
  release_set_id set_id

-- `_devices.values()` with a test on the object.
unfoldable pub select_devices : (Device → Bool) → Registry → List ℕ
select_devices test r = select (λ o. test (r.device_at o)) (values r.devices)

unfoldable pub first_device : (Device → Bool) → (ℕ → Device) → List ℕ → Option ℕ
first_device test heap [] = none
first_device test heap (o ∷ os) = if test (heap o) then some o else first_device test heap os

unfoldable pub get_by_port_info : ℕ → Registry → Option ℕ
unfolding first_device
get_by_port_info port r = first_device (λ d. d.port == port) r.device_at (values r.devices)

unfoldable pub get_by_gateway : ℕ → Registry → List ℕ
unfolding select_devices
get_by_gateway gateway = select_devices (λ d. is_reference gateway d.gateway)

unfoldable pub get_by_group : String → Registry → List ℕ
unfolding select_devices
get_by_group group = select_devices (λ d. elim d.group [ none ↦ false | some g ↦ g == group ])

unfoldable pub get_triggered_devices : Registry → List ℕ
unfolding select_devices
get_triggered_devices = select_devices (λ d. is_some d.host)
