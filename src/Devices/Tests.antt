-- ===== src/Devices/Tests.antt =====
-- daq/runner.py, class Devices: samples.
use daq.Base.{
  ℕ, ◌≤◌, ◌<◌, String, ◌≡◌, refl, ◌≢◌, true, false, none, some, [], ◌∷◌, arith, if◌then◌else◌, ◌==◌,
  nat_eq, string_eq, contains, pair_eq,
}
use daq.Base.Dict.{get}
use daq.Base.Action.{ok}
use daq.Devices.{
  Registry, fresh_device, fresh_port, allocate_set_id, create_if_absent, new_device, remove, holds,
  choose_set_id,
}
use daq.Devices.Allocation.{allocate_set_id-least_free}
use daq.Devices.Invariant.{IsValid}
use daq.Devices.Container.{create_if_absent-IsValid, remove-IsValid}

abbrev empty : Registry
empty = record {
  device_at = λ _. fresh_device "" 0 none;
  device_count = 0;
  port_at = λ _. record { active = false; flapping_start = none; port_no = some 3 };
  port_count = 1;
  devices = [];
  set_ids = [];
}

-- Two devices, the second of them on port 3.
abbrev first : Registry
first = (create_if_absent "9a:01" none none empty).1

abbrev second : Registry
second = (create_if_absent "9a:02" (some 0) none first).1

empty-IsValid : IsValid empty
empty-IsValid = record {
  named = λ m o h. absurd (ground arith);
  bounded = λ m o h. absurd (ground arith);
  claimed = λ m o h. absurd (ground arith);
  apart = λ m n o p s h k e f. absurd (ground arith);
}

first_outcome : (create_if_absent "9a:01" none none empty).0 ≡ ok 0
unfolding create_if_absent new_device choose_set_id allocate_set_id fresh_port
first_outcome = refl

second_outcome : (create_if_absent "9a:02" (some 0) none first).0 ≡ ok 1
unfolding create_if_absent new_device choose_set_id allocate_set_id fresh_port
second_outcome = refl

second_registry : (holds second 1 ≡ true) × ((second.device_at 1).set_id ≡ some 3)
unfolding holds create_if_absent new_device choose_set_id allocate_set_id fresh_port fresh_device
second_registry = (refl, refl)

second_taken :
    (get "9a:03" second.devices ≡ none)
    × ((second.port_at 0).port_no ≡ some 3)
    × (contains second.set_ids 3 ≡ true)
unfolding create_if_absent new_device choose_set_id allocate_set_id fresh_port fresh_device
second_taken = (refl, refl, refl)

first-IsValid : IsValid first
first-IsValid = (create_if_absent-IsValid "9a:01" none none empty 0 empty-IsValid first_outcome).0

second-IsValid : IsValid second
second-IsValid =
    (create_if_absent-IsValid "9a:02" (some 0) none first 1 first-IsValid second_outcome).0

allocate_set_id_example :
    (1 ≤ allocate_set_id (1 ∷ 2 ∷ 4 ∷ []))
    × (contains (1 ∷ 2 ∷ 4 ∷ []) (allocate_set_id (1 ∷ 2 ∷ 4 ∷ [])) ≡ false)
    × ((k : ℕ) → 1 ≤ k → k < allocate_set_id (1 ∷ 2 ∷ 4 ∷ []) → contains (1 ∷ 2 ∷ 4 ∷ []) k ≡ true)
allocate_set_id_example = allocate_set_id-least_free (1 ∷ 2 ∷ 4 ∷ [])

create_if_absent_example :
    IsValid second
    × (get "9a:02" second.devices ≡ some 1)
    × ((m : String) → m ≢ "9a:02" → get m second.devices ≡ get m first.devices)
create_if_absent_example =
    create_if_absent-IsValid "9a:02" (some 0) none first 1 first-IsValid second_outcome

remove_example :
    let (result, r') = remove 1 second in
    (result ≡ ok tt)
    × IsValid r'
    × ((m : String)
        → get m r'.devices ≡ (if m == (second.device_at 1).mac then none else get m second.devices))
    × ((s : ℕ) → (second.device_at 1).set_id ≡ some s → contains r'.set_ids s ≡ false)
remove_example = remove-IsValid 1 second second-IsValid second_registry.0
