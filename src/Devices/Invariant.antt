-- ===== src/Devices/Invariant.antt =====
-- daq/runner.py, class Devices: the invariant of the container, and what each call changes.
use daq.Base.{
  ℕ, ◌+◌, ◌<◌, String, ◌≡◌, sym, ◌∙◌, ◌≢◌, ◌⊎◌, inl, inr, true, false, ◌||◌, Option, none, some,
  arith, if◌then◌else◌, Bool-cases, ◌==◌, nat_eq, string_eq, beq→eq, contains, add, contains-add,
}
use daq.Base.Dict.{get, insert, get-insert}
use daq.Base.Action.{ok}
use daq.Devices.{Registry, fresh_device, fresh_port, new_device, choose_set_id}

-- Every registered device is filed under its own mac, stands on the heap and has a set id that is
-- marked as used; no two registered devices share a set id.
pub record IsValid (r : Registry) : Type 0 where
  pub named : (m : String) (o : ℕ) → get m r.devices ≡ some o → (r.device_at o).mac ≡ m
  pub bounded : (m : String) (o : ℕ) → get m r.devices ≡ some o → o < r.device_count
  pub claimed :
      (m : String) (o : ℕ)
      → get m r.devices ≡ some o
      → (s : ℕ) × ((r.device_at o).set_id ≡ some s) × (contains r.set_ids s ≡ true)
  pub apart :
      (m n : String) (o p s : ℕ)
      → get m r.devices ≡ some o
      → get n r.devices ≡ some p
      → (r.device_at o).set_id ≡ some s
      → (r.device_at p).set_id ≡ some s
      → m ≡ n

-- What a successful `new_device` has done, with the set id `s`.
pub record IsEntered (mac : String) (r : Registry) (o s : ℕ) (r' : Registry) : Type 0 where
  pub unknown : get mac r.devices ≡ none
  pub unused : contains r.set_ids s ≡ false
  pub next : o ≡ r.device_count
  pub count : r'.device_count ≡ r.device_count + 1
  pub filed : r'.devices ≡ insert mac o r.devices
  pub ids : r'.set_ids ≡ add r.set_ids s
  pub its_mac : (r'.device_at o).mac ≡ mac
  pub its_set_id : (r'.device_at o).set_id ≡ some s
  pub others : (p : ℕ) → p ≢ o → r'.device_at p ≡ r.device_at p

pub new_device-IsEntered :
    (mac : String) (port_info vlan : Option ℕ) (r : Registry) (o : ℕ)
    → (new_device mac port_info vlan r).0 ≡ ok o
    → (s : ℕ) × IsEntered mac r o s (new_device mac port_info vlan r).1
unfolding new_device fresh_device fresh_port
new_device-IsEntered mac none vlan r o h = (
  choose_set_id none r.set_ids,
  record {
    unknown = ground arith;
    unused = ground arith;
    next = ground arith;
    count = ground arith;
    filed = ground arith;
    ids = ground arith;
    its_mac = ground arith;
    its_set_id = ground arith;
    others = λ p ne. ground arith;
  },
)
new_device-IsEntered mac (some port) vlan r o h = (
  choose_set_id (r.port_at port).port_no r.set_ids,
  record {
    unknown = ground arith;
    unused = ground arith;
    next = ground arith;
    count = ground arith;
    filed = ground arith;
    ids = ground arith;
    its_mac = ground arith;
    its_set_id = ground arith;
    others = λ p ne. ground arith;
  },
)

module _ (mac : String) (r : Registry) (o s : ℕ) (r' : Registry) (valid : IsValid r)
    (entered : IsEntered mac r o s r') where
  open valid use {named, bounded, claimed, apart}
  open entered use {unused, next, count, filed, ids, its_mac, its_set_id, others}

  -- The new device is found under its mac, and all other entries are as before.
  pub get-entered : (m : String) → get m r'.devices ≡ (if m == mac then some o else get m r.devices)
  get-entered m = rw filed (get-insert m mac o r.devices)

  -- An entry of the new dict is the new device or an old entry, whose object has not changed.
  get-entered_cases :
      (m : String) (p : ℕ)
      → get m r'.devices ≡ some p
      → (m ≡ mac) × (p ≡ o)
        ⊎ (get m r.devices ≡ some p) × (p ≢ o) × (r'.device_at p ≡ r.device_at p)
  get-entered_cases m p h = elim (Bool-cases (m == mac)) [
    | inl same ↦ inl (beq→eq m mac same, ground (arith, get-entered m))
    | inr other ↦
        let old : get m r.devices ≡ some p = ground (arith, get-entered m) in
        let ne : p ≢ o = omega (arith, bounded m p old) in inr (old, ne, others p ne)
  ]

  contains_new : (t : ℕ) → contains r'.set_ids t ≡ (contains r.set_ids t || t == s)
  contains_new t = rw ids (contains-add r.set_ids s t)

  entered-named : (m : String) (p : ℕ) → get m r'.devices ≡ some p → (r'.device_at p).mac ≡ m
  entered-named m p h = elim (get-entered_cases m p h) [
    | inl (em, ep) ↦ rw (em, ep) its_mac
    | inr (old, ne, same) ↦ rw same (named m p old)
  ]

  entered-claimed :
      (m : String) (p : ℕ)
      → get m r'.devices ≡ some p
      → (t : ℕ) × ((r'.device_at p).set_id ≡ some t) × (contains r'.set_ids t ≡ true)
  entered-claimed m p h = elim (get-entered_cases m p h) [
    | inl (em, ep) ↦ (s, rw ep its_set_id, ground (arith, contains_new s))
    | inr (old, ne, same) ↦
        let (t, et, ct) = claimed m p old in (t, rw same et, ground (arith, contains_new t))
  ]

  -- An old device does not have the new set id, which was unused.
  old-set_id :
      (m : String) (p t : ℕ) → get m r.devices ≡ some p → (r.device_at p).set_id ≡ some t → t ≢ s
  old-set_id m p t old e = let (u, eu, cu) = claimed m p old in ground arith

  entered-apart :
      (m n : String) (p q t : ℕ)
      → get m r'.devices ≡ some p
      → get n r'.devices ≡ some q
      → (r'.device_at p).set_id ≡ some t
      → (r'.device_at q).set_id ≡ some t
      → m ≡ n
  entered-apart m n p q t hm hn ep eq = elim (get-entered_cases m p hm) [
    | inl (em, epo) ↦ elim (get-entered_cases n q hn) [
      | inl (en, eqo) ↦ em ∙ sym en
      | inr (oldn, ne, same) ↦ absurd (old-set_id n q t oldn (rw same at eq) (ground arith))
    ]
    | inr (oldm, ne, same) ↦ elim (get-entered_cases n q hn) [
      | inl (en, eqo) ↦ absurd (old-set_id m p t oldm (rw same at ep) (ground arith))
      | inr (oldn, ne', same') ↦ apart m n p q t oldm oldn (rw same at ep) (rw same' at eq)
    ]
  ]

  pub IsEntered-IsValid : IsValid r'
  IsEntered-IsValid = record {
    named = entered-named;
    bounded = λ m p h. elim (get-entered_cases m p h) [
      | inl (em, ep) ↦ omega arith
      | inr (old, _, _) ↦ omega (arith, bounded m p old)
    ];
    claimed = entered-claimed;
    apart = entered-apart;
  }
