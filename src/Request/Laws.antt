-- ===== src/Request/Laws.antt =====
-- Exactly which requests are granted.
use nimly_manager.Base.{◌+◌, ◌≤◌, ◌<◌, ◌≡◌, false, arith, length}
use nimly_manager.Base.Int.{ℤ, pos, negsuc}
use nimly_manager.Base.Result.{Result, ok}
use nimly_manager.Text.{Text}
use nimly_manager.Time.{DateTime, is_naive, local_time, minute, hour, end_of_time}
use nimly_manager.States.{Error}
use nimly_manager.Request.{is_empty, expiry, check_request, default_ttl}

-- A person as a session records it.
pub record IsPerson (person_id person_name : Text) : Type 0 where
  pub id : is_empty person_id ≡ false
  pub name : is_empty person_name ≡ false
  pub short : length person_name ≤ 100

-- `end` is a time that `now + ttl` gives for an allowed ttl.
pub record IsExpiry (now end : DateTime) : Type 0 where
  pub aware : is_naive now ≡ false
  pub least : now.instant + minute ≤ end.instant
  pub most : end.instant ≤ now.instant + hour

expiry-IsExpiry :
    (now end : DateTime) (ttl : ℤ)
    → is_naive now ≡ false
    → expiry now ttl ≡ ok end
    → IsExpiry now end
unfolding expiry
expiry-IsExpiry now end (negsuc n) a h = cc
expiry-IsExpiry now end (pos ttl) a h = ground arith

module _ (person_id person_name : Text) (slot_test : Result Error (Unit {0})) (now end : DateTime)
    (ttl : ℤ) (granted : check_request person_id person_name slot_test now ttl ≡ ok end) where
  pub granted-IsPerson : IsPerson person_id person_name
  unfolding check_request
  granted-IsPerson = ground arith

  pub granted_slot : slot_test ≡ ok tt
  unfolding check_request
  granted_slot = ground arith

  granted_aware : is_naive now ≡ false
  unfolding check_request
  granted_aware = ground arith

  granted_end : expiry now ttl ≡ ok end
  unfolding check_request
  granted_end = ground arith

  pub granted-IsExpiry : IsExpiry now end
  granted-IsExpiry = expiry-IsExpiry now end ttl granted_aware granted_end

-- For a person of a session and an aware time whose clock is not within 15 minutes of the year
-- 10000, the tests with a slot that is in range and the default ttl give the time 15 minutes later.
pub check_request_grants :
    (person_id person_name : Text) (now : DateTime)
    → IsPerson person_id person_name
    → is_naive now ≡ false
    → local_time now + 900000000 < end_of_time
    → check_request person_id person_name (ok tt) now default_ttl
      ≡ ok (record now { instant = now.instant + 900000000 })
unfolding check_request
check_request_grants person_id person_name now p a room = ground arith
