-- ===== src/Request.antt =====
-- What FingerprintEnrollment.start and BleFingerprintScan.start test in the same way:
-- custom_components/nimly_manager/fingerprint_enrollment.py and
-- custom_components/nimly_manager/fingerprint_scan.py.
pub mod Laws
use nimly_manager.Base.{
  ℕ, Bool, true, false, Option, none, some, List, [], ◌∷◌, ltb, within, length, if◌then◌else◌,
}
use nimly_manager.Base.Int.{ℤ, pos, negsuc}
use nimly_manager.Base.Result.{Result, ok, err, ◌>>=◌, ◌>>◌}
use nimly_manager.Text.{Text}
use nimly_manager.Time.{DateTime, is_naive, plus, minute, hour}
use nimly_manager.States.{
  Error, empty_person_id, empty_person_name, person_name_too_long, naive_now, bad_ttl,
  date_overflow,
}

abbrev pub is_empty : Text → Bool
is_empty [] = true
is_empty (c ∷ cs) = false

-- The tests on a person that both workflows make, on the stripped texts.
unfoldable pub check_person : Text → Text → Result Error (Unit {0})
check_person person_id person_name =
    if is_empty person_id
    then err empty_person_id
    else if is_empty person_name
    then err empty_person_name
    else if ltb 100 (length person_name)
    then err person_name_too_long
    else ok tt

-- _require_timezone
unfoldable pub require_timezone : DateTime → Result Error (Unit {0})
unfolding is_naive
require_timezone value = if is_naive value then err naive_now else ok tt

-- now + ttl, for a ttl from one minute to one hour
unfoldable pub expiry : DateTime → ℤ → Result Error DateTime
unfolding plus
expiry now (negsuc n) = err bad_ttl
expiry now (pos ttl) =
    if within minute hour ttl
    then elim (plus now ttl) [ none ↦ err date_overflow | some end ↦ ok end ]
    else err bad_ttl

-- timedelta(minutes=15), the ttl where the caller gives none
abbrev pub default_ttl : ℤ
default_ttl = pos 900000000

-- The tests in their order, with the test of the slot as `slot_test`; the result is `now + ttl`.
unfoldable pub check_request :
    Text → Text → Result Error (Unit {0}) → DateTime → ℤ → Result Error DateTime
unfolding check_person require_timezone expiry
check_request person_id person_name slot_test now ttl = do
  check_person person_id person_name
  slot_test
  require_timezone now
  expiry now ttl
