-- ===== src/Slots/Effects.antt =====
-- What `observe` and `verify` do to the registry, on every branch.
use nimly_manager.Base.{
  ◌+◌, ◌≡◌, ◌≢◌, refl, ap, ◌∙◌, ◌⊎◌, inl, inr, true, false, Option, some, arith, if◌then◌else◌,
  Bool-cases,
}
use nimly_manager.Base.Int.{ℤ, within_ℤ, ◌==ℤ◌, ==ℤ_iff, ==ℤ_refl}
use nimly_manager.Base.Result.{ok, err}
use nimly_manager.Text.{Text, strip}
use nimly_manager.Time.{DateTime, is_naive}
use nimly_manager.Time.Iso.{isoformat}
use nimly_manager.States.{Error, slot_invalid, naive_timestamp}
use nimly_manager.Dict.{lookup, lookup-insert}
use nimly_manager.Slots.{
  verified, FingerprintSlot, FingerprintSlotRegistry, get, changed, store, observed_record,
  verified_record, observe, verify, keep_or,
}

-- The record after an observation, and after a verification.
abbrev pub seen : ℤ → DateTime → FingerprintSlotRegistry → FingerprintSlot
seen slot now r = observed_record slot (isoformat now) (lookup slot r.records)

abbrev pub proven :
    ℤ → Text → Text → DateTime → Option ℤ → FingerprintSlotRegistry → FingerprintSlot
proven slot id name now ble r = verified_record id name (isoformat now) ble (seen slot now r)

-- Why both refuse.
abbrev pub refusal : ℤ → Error
refusal slot = if within_ℤ 3 199 slot then naive_timestamp else slot_invalid

pub observe_ok :
    (slot : ℤ) (now : DateTime) (r : FingerprintSlotRegistry)
    → within_ℤ 3 199 slot ≡ true
    → is_naive now ≡ false
    → observe slot now r ≡ (ok (seen slot now r), changed (store slot (seen slot now r) r))
unfolding observe
observe_ok slot now r h k = rw (h, k)

pub observe_cases :
    (slot : ℤ) (now : DateTime) (r : FingerprintSlotRegistry)
    → ((within_ℤ 3 199 slot ≡ true)
        × (observe slot now r ≡ (ok (seen slot now r), changed (store slot (seen slot now r) r))))
      ⊎ ((x : Error) × (observe slot now r ≡ (err x, r)))
unfolding observe
observe_cases slot now r = elim (Bool-cases (within_ℤ 3 199 slot)) [
  | inl h ↦ elim (Bool-cases (is_naive now)) [
    | inl k ↦ inr (naive_timestamp, rw (h, k))
    | inr k ↦ inl (h, rw (h, k))
  ]
  | inr h ↦ inr (slot_invalid, rw h)
]

-- The registry after a verification.
abbrev pub after_verify :
    ℤ → Text → Text → DateTime → Option ℤ → FingerprintSlotRegistry → FingerprintSlotRegistry
after_verify slot id name now ble r =
    changed (store slot (proven slot id name now ble r) (changed (store slot (seen slot now r) r)))

pub verify_ok :
    (slot : ℤ) (id name : Text) (now : DateTime) (ble : Option ℤ) (r : FingerprintSlotRegistry)
    → within_ℤ 3 199 slot ≡ true
    → is_naive now ≡ false
    → verify slot id name now ble r
      ≡ (ok (proven slot id name now ble r), after_verify slot id name now ble r)
unfolding verify
verify_ok slot id name now ble r h k = rw (h, k)

pub verify_cases :
    (slot : ℤ) (id name : Text) (now : DateTime) (ble : Option ℤ) (r : FingerprintSlotRegistry)
    → ((within_ℤ 3 199 slot ≡ true)
        × (verify slot id name now ble r
            ≡ (ok (proven slot id name now ble r), after_verify slot id name now ble r)))
      ⊎ ((x : Error) × (verify slot id name now ble r ≡ (err x, r)))
unfolding verify
verify_cases slot id name now ble r = elim (Bool-cases (within_ℤ 3 199 slot)) [
  | inl h ↦ elim (Bool-cases (is_naive now)) [
    | inl k ↦ inr (naive_timestamp, rw (h, k))
    | inr k ↦ inl (h, rw (h, k))
  ]
  | inr h ↦ inr (slot_invalid, rw h)
]

-- A slot outside 3 to 199, or a naive time, is refused by observe and verify with the slot's
-- error first; the registry is not changed and nobody is notified.
pub registry_refuses :
    (slot : ℤ) (id name : Text) (now : DateTime) (ble : Option ℤ) (r : FingerprintSlotRegistry)
    → (within_ℤ 3 199 slot ≡ false) ⊎ (is_naive now ≡ true)
    → (observe slot now r ≡ (err (refusal slot), r))
      × (verify slot id name now ble r ≡ (err (refusal slot), r))
unfolding observe verify
registry_refuses slot id name now ble r (inl h) = (rw h, rw h)
registry_refuses slot id name now ble r (inr k) = (ground arith, ground arith)

-- What an observation leaves of a record: its evidence, its person and its first time.
pub record SameEvidence (s t : FingerprintSlot) : Type 0 where
  pub slot : t.slot ≡ s.slot
  pub status : t.status ≡ s.status
  pub first_seen_at : t.first_seen_at ≡ s.first_seen_at
  pub person_id : t.person_id ≡ s.person_id
  pub person_name : t.person_name ≡ s.person_name
  pub verified_at : t.verified_at ≡ s.verified_at
  pub ble_slot : t.ble_slot ≡ s.ble_slot

touch-SameEvidence :
    (s : FingerprintSlot) (time : Text) → SameEvidence s (record s { last_seen_at = time })
touch-SameEvidence s time = record {
  slot = refl;
  status = refl;
  first_seen_at = refl;
  person_id = refl;
  person_name = refl;
  verified_at = refl;
  ble_slot = refl;
}

SameEvidence-refl : (s : FingerprintSlot) → SameEvidence s s
SameEvidence-refl s = touch-SameEvidence s s.last_seen_at

seen_known :
    (slot j : ℤ) (now : DateTime) (r : FingerprintSlotRegistry) (s : FingerprintSlot)
    → (slot ==ℤ j) ≡ true
    → get j r ≡ some s
    → seen slot now r ≡ record s { last_seen_at = isoformat now }
unfolding get observed_record
seen_known slot j now r s same h = ground (arith, ==ℤ_iff slot j)

-- What a client finds in slot `j` after the slot `k` was given the record `t`.
get-store :
    (k j : ℤ) (t : FingerprintSlot) (r : FingerprintSlotRegistry)
    → get j (changed (store k t r)) ≡ (if k ==ℤ j then some t else get j r)
unfolding get
get-store k j t r = lookup-insert k j t r.records

-- An observation, also one that raises, never loses a slot nor lowers its evidence: whatever slot
-- was known before, of this or another number, is known after it with the same status, person,
-- BLE slot and first time.
pub observe_keeps_evidence :
    (slot j : ℤ) (now : DateTime) (r : FingerprintSlotRegistry) (s : FingerprintSlot)
    → get j r ≡ some s
    → (t : FingerprintSlot) × (get j (observe slot now r).1 ≡ some t) × SameEvidence s t
observe_keeps_evidence slot j now r s h = elim (observe_cases slot now r) [
  | inr (x, e) ↦ (s, rw e h, SameEvidence-refl s)
  | inl (_, e) ↦ elim (Bool-cases (slot ==ℤ j)) [
    | inl same ↦ (
      record s { last_seen_at = isoformat now },
      rw e (
          rw (get-store slot j (seen slot now r) r, same)
            (ap some (seen_known slot j now r s same h))),
      touch-SameEvidence s (isoformat now),
    )
    | inr apart ↦
        (s, rw e (rw (get-store slot j (seen slot now r) r, apart) h), SameEvidence-refl s)
  ]
]

get-after_verify :
    (slot j : ℤ) (id name : Text) (now : DateTime) (ble : Option ℤ) (r : FingerprintSlotRegistry)
    → get j (after_verify slot id name now ble r)
      ≡ (if slot ==ℤ j then some (proven slot id name now ble r) else get j r)
get-after_verify slot j id name now ble r = ground (
  arith,
  get-store slot j (proven slot id name now ble r) (changed (store slot (seen slot now r) r)),
  get-store slot j (seen slot now r) r,
)

-- A record that vouches for an enrolment: VERIFIED, with the stripped person and the time.
pub record Proves (id name : Text) (now : DateTime) (s : FingerprintSlot) : Type 0 where
  pub status : s.status ≡ verified
  pub person_id : s.person_id ≡ some (strip id)
  pub person_name : s.person_name ≡ some (strip name)
  pub verified_at : s.verified_at ≡ some (isoformat now)
  pub last_seen_at : s.last_seen_at ≡ isoformat now

-- A verification of a slot from 3 to 199 at an aware time succeeds and notifies twice. The slot
-- then holds a record, the one returned, that is VERIFIED with the stripped person and the time,
-- and with the BLE slot that was given, or else the one known before. Other slots are as before.
pub verify_records :
    (slot : ℤ) (id name : Text) (now : DateTime) (ble : Option ℤ) (r : FingerprintSlotRegistry)
    → within_ℤ 3 199 slot ≡ true
    → is_naive now ≡ false
    → let (result, r') = verify slot id name now ble r in
      (s : FingerprintSlot) × (result ≡ ok s)
      × (get slot r' ≡ some s)
      × Proves id name now s
      × (s.ble_slot ≡ keep_or ble (observed_record slot (isoformat now) (get slot r)).ble_slot)
      × ((j : ℤ) → j ≢ slot → get j r' ≡ get j r)
      × (r'.changes ≡ r.changes + 1 + 1)
unfolding verified_record get
verify_records slot id name now ble r h k = (
  proven slot id name now ble r,
  rw (verify_ok slot id name now ble r h k),
  rw (verify_ok slot id name now ble r h k)
      (get-after_verify slot slot id name now ble r ∙ rw (==ℤ_refl slot)),
  record {
    status = refl;
    person_id = refl;
    person_name = refl;
    verified_at = refl;
    last_seen_at = refl;
  },
  refl,
  λ j apart.
      rw (verify_ok slot id name now ble r h k)
        (get-after_verify slot j id name now ble r ∙ ground (arith, ==ℤ_iff slot j)),
  rw (verify_ok slot id name now ble r h k),
)
