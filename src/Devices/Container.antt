-- ===== src/Devices/Container.antt =====
-- daq/runner.py, class Devices: its methods keep the container consistent, and how they fail.
use daq.Base.{
  ℕ, suc, String, ◌≡◌, refl, ap, ◌∙◌, ◌≢◌, inl, inr, true, false, not, ◌&&◌, Option, none, some,
  arith, if◌then◌else◌, Option-cases, ◌==◌, nat_eq, string_eq, beq_self, beq_false, contains,
  discard, contains-discard, pair_eq,
}
use daq.Base.Dict.{get, has, erase, get-insert, get-erase}
use daq.Base.Action.{assertion, Result, ok, err}
use daq.Devices.{
  Registry, fresh_device, fresh_port, new_device, create_if_absent, remove, choose_set_id, holds,
}
use daq.Devices.Allocation.{allocate_set_id-least_free}
use daq.Devices.Invariant.{IsValid, IsEntered-IsValid, new_device-IsEntered, get-entered}

create_if_absent-unknown :
    (mac : String) (port_info vlan : Option ℕ) (r : Registry)
    → get mac r.devices ≡ none
    → create_if_absent mac port_info vlan r ≡ new_device mac port_info vlan r
unfolding create_if_absent
create_if_absent-unknown mac port_info vlan r h = ground arith

create_if_absent-known :
    (mac : String) (port_info vlan : Option ℕ) (r : Registry) (p : ℕ)
    → get mac r.devices ≡ some p
    → create_if_absent mac port_info vlan r ≡ (ok p, r)
unfolding create_if_absent
create_if_absent-known mac port_info vlan r p h = ground arith

-- If create_if_absent returns a device, the container is still valid, the device is filed under the
-- mac, and under every other mac stands what stood there before.
pub create_if_absent-IsValid :
    (mac : String) (port_info vlan : Option ℕ) (r : Registry) (o : ℕ)
    → IsValid r
    → (create_if_absent mac port_info vlan r).0 ≡ ok o
    → let r' = (create_if_absent mac port_info vlan r).1 in
      IsValid r'
      × (get mac r'.devices ≡ some o)
      × ((m : String) → m ≢ mac → get m r'.devices ≡ get m r.devices)
create_if_absent-IsValid mac port_info vlan r o valid h = elim (Option-cases (get mac r.devices)) [
  | inl unknown ↦
      let e = create_if_absent-unknown mac port_info vlan r unknown in
      let (s, entered) = new_device-IsEntered mac port_info vlan r o (rw e at h) in
      let look = get-entered mac r o s _ valid entered in
      rw e (
        IsEntered-IsValid mac r o s _ valid entered,
        look mac ∙ rw (beq_self mac),
        λ m ne. look m ∙ rw (beq_false m mac ne),
      )
  | inr (p, known) ↦
      let e = create_if_absent-known mac port_info vlan r p known in
      let same : p ≡ o = cc (ap (λ (x : Result ℕ × Registry). x.0) e) in
      rw e (valid, known ∙ ap some same, λ m ne. refl)
]

-- new_device returns exactly if the mac is not known and the set id chosen for the port is free; in
-- all other cases an assertion fails.
pub new_device_outcome :
    (mac : String) (port : ℕ) (vlan : Option ℕ) (r : Registry)
    → (new_device mac (some port) vlan r).0 ≡ (
        if not (has mac r.devices)
          && not (contains r.set_ids (choose_set_id (r.port_at port).port_no r.set_ids))
        then ok r.device_count
        else err assertion)
unfolding new_device
new_device_outcome mac port vlan r = ground arith

-- Without a port the set id is allocated, so an unknown mac is always accepted.
pub new_device_portless :
    (mac : String) (vlan : Option ℕ) (r : Registry)
    → get mac r.devices ≡ none
    → (new_device mac none vlan r).0 ≡ ok r.device_count
unfolding new_device choose_set_id fresh_port
new_device_portless mac vlan r h = ground (arith, (allocate_set_id-least_free r.set_ids).1)

-- On a port whose number is in use as a set id, new_device fails, yet leaves the device in the
-- container, filed under its mac with no set id.
pub new_device_taken :
    (mac : String) (port n : ℕ) (vlan : Option ℕ) (r : Registry)
    → get mac r.devices ≡ none
    → (r.port_at port).port_no ≡ some (suc n)
    → contains r.set_ids (suc n) ≡ true
    → let (result, r') = new_device mac (some port) vlan r in
      (result ≡ err assertion)
      × (get mac r'.devices ≡ some r.device_count)
      × ((r'.device_at r.device_count).set_id ≡ none)
unfolding new_device choose_set_id fresh_device
new_device_taken mac port n vlan r h e c =
    ground (arith, get-insert mac mac r.device_count r.devices, beq_self mac)

abbrev without : ℕ → ℕ → Registry → Registry
without o s r = record r {
  devices = erase (r.device_at o).mac r.devices;
  set_ids = discard r.set_ids s;
}

holds-get : (o : ℕ) (r : Registry) → holds r o ≡ true → get (r.device_at o).mac r.devices ≡ some o
unfolding holds
holds-get o r h = ground arith

remove-eq-without :
    (o s : ℕ) (r : Registry)
    → holds r o ≡ true
    → (r.device_at o).set_id ≡ some s
    → contains r.set_ids s ≡ true
    → remove o r ≡ (ok tt, without o s r)
unfolding remove
remove-eq-without o s r h e c = ground arith

module _ (o s : ℕ) (r : Registry) (valid : IsValid r)
    (held : get (r.device_at o).mac r.devices ≡ some o)
    (its_set_id : (r.device_at o).set_id ≡ some s) where
  open valid use {named, bounded, claimed, apart}

  get-without :
      (m : String)
      → get m (without o s r).devices ≡ (if m == (r.device_at o).mac then none else get m r.devices)
  get-without m = get-erase m (r.device_at o).mac r.devices

  get-without_old :
      (m : String) (p : ℕ)
      → get m (without o s r).devices ≡ some p
      → (get m r.devices ≡ some p) × (m ≢ (r.device_at o).mac)
  get-without_old m p h =
      ground (arith, get-without m, beq_self m, (string_eq.beq_iff m (r.device_at o).mac))

  without-claimed :
      (m : String) (p : ℕ)
      → get m (without o s r).devices ≡ some p
      → (t : ℕ) × ((r.device_at p).set_id ≡ some t) × (contains (without o s r).set_ids t ≡ true)
  without-claimed m p h =
      let (old, ne) = get-without_old m p h in
      let (t, et, ct) = claimed m p old in
      let differ : t ≢ s = λ ts. ne (apart m _ p o s old held (et ∙ ap some ts) its_set_id) in
      (t, et, contains-discard r.set_ids s t ∙ rw (ct, beq_false t s differ))

  without-IsValid : IsValid (without o s r)
  without-IsValid = record {
    named = λ m p h. named m p (get-without_old m p h).0;
    bounded = λ m p h. bounded m p (get-without_old m p h).0;
    claimed = without-claimed;
    apart =
        λ m n p q t hm hn. apart m n p q t (get-without_old m p hm).0 (get-without_old n q hn).0;
  }

-- A registered device is removed: the call succeeds, exactly the entry of its mac goes, its set id
-- is free again, and the container stays valid.
pub remove-IsValid :
    (o : ℕ) (r : Registry)
    → IsValid r
    → holds r o ≡ true
    → let (result, r') = remove o r in
      (result ≡ ok tt)
      × IsValid r'
      × ((m : String)
          → get m r'.devices ≡ (if m == (r.device_at o).mac then none else get m r.devices))
      × ((s : ℕ) → (r.device_at o).set_id ≡ some s → contains r'.set_ids s ≡ false)
remove-IsValid o r valid h =
    let held = holds-get o r h in
    let (s, es, cs) = valid.claimed _ o held in
    rw (remove-eq-without o s r h es cs) (
      refl,
      without-IsValid o s r valid held es,
      get-without o s r valid held es,
      λ t et. freed s t es et,
    )
  where
    freed :
        (s t : ℕ)
        → (r.device_at o).set_id ≡ some s
        → (r.device_at o).set_id ≡ some t
        → contains (discard r.set_ids s) t ≡ false
    freed s t es et = ground (arith, contains-discard r.set_ids s t)

-- A device that is not registered is refused and nothing changes.
pub remove_unknown : (o : ℕ) (r : Registry) → holds r o ≡ false → remove o r ≡ (err assertion, r)
unfolding remove
remove_unknown o r h = ground arith
