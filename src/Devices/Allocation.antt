-- ===== src/Devices/Allocation.antt =====
-- daq/runner.py, Devices._allocate_set_id: the loop ends at the least free number.
use daq.Base.{ℕ, ◌≤◌, ◌<◌, ◌≡◌, true, false, List, nat_eq, string_eq, length, contains}
use daq.Base.FirstFree.{first_free-fresh, first_free-le, first_free-least}
use daq.Devices.{allocate_set_id}

-- The set id that is allocated is at least 1 and not in use, and every smaller one from 1 on is in
-- use. So the loop has ended by its test within as many rounds as ids are in use.
pub allocate_set_id-least_free :
    (ids : List ℕ)
    → (1 ≤ allocate_set_id ids)
      × (contains ids (allocate_set_id ids) ≡ false)
      × ((k : ℕ) → 1 ≤ k → k < allocate_set_id ids → contains ids k ≡ true)
unfolding allocate_set_id
allocate_set_id-least_free ids = (
  first_free-le (length ids) 1 ids,
  first_free-fresh 1 ids,
  λ k low high. first_free-least (length ids) 1 k ids low high,
)
