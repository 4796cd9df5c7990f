-- ===== src/Tests/Sample.antt =====
-- Inputs that the tests share.
use nimly_manager.Base.{none, some, [], refl}
use nimly_manager.Crypto.{Cbc}
use nimly_manager.Crypto.Laws.{IsCbc}
use nimly_manager.Base.Int.{pos}
use nimly_manager.Text.{Text, text}
use nimly_manager.Time.{DateTime}
use nimly_manager.States.{EnrollmentState, ScanState}
use nimly_manager.Enrollment.{FingerprintEnrollment}
use nimly_manager.Scan.{BleFingerprintScan}
use nimly_manager.Slots.{FingerprintSlotRegistry}
use nimly_manager.Runtime.{NimlyLockRuntime, new_runtime}

-- A moment of 2023 in UTC, a minute later, a quarter of an hour later, and a naive time.
abbrev pub noon : DateTime
noon = record { instant = 63838000000000000; offset = some (pos 0) }

abbrev pub soon : DateTime
soon = record { instant = 63838000060000000; offset = some (pos 0) }

abbrev pub late : DateTime
late = record { instant = 63838000900000000; offset = some (pos 0) }

abbrev pub unzoned : DateTime
unzoned = record { instant = 63838000000000000; offset = none }

abbrev pub ada : Text
ada = text "Ada"

abbrev pub finger : Text
finger = text "fingerprint"

-- What `start` gives for Ada and the slot 5 at noon.
abbrev pub session : FingerprintEnrollment
session = record {
  session_id = text "s1";
  person_id = text "p1";
  person_name = ada;
  slot = pos 5;
  started_at = noon;
  expires_at = late;
  state = EnrollmentState.local_programming;
  verified_at = none;
}

abbrev pub awaiting_session : FingerprintEnrollment
awaiting_session = record session { state = EnrollmentState.awaiting_verification }

abbrev pub cancelled_session : FingerprintEnrollment
cancelled_session = record session { state = EnrollmentState.cancelled }

-- What `start` gives for Ada and the BLE slot 150 at noon.
abbrev pub scan : BleFingerprintScan
scan = record {
  session_id = text "b1";
  person_id = text "p1";
  person_name = ada;
  ble_slot = pos 150;
  started_at = noon;
  expires_at = late;
  state = ScanState.connecting;
  finger_prompt_at = none;
  scanned_at = none;
  scan_status = none;
  reported_slot = none;
  response_seconds = none;
  model = none;
  firmware = none;
  zigbee_slot = none;
  verified_at = none;
  enrollment_session_id = none;
  error = none;
}

abbrev pub cancelled_scan : BleFingerprintScan
cancelled_scan = record scan { state = ScanState.cancelled }

abbrev pub no_slots : FingerprintSlotRegistry
no_slots = record { records = []; changes = 0 }

abbrev pub idle : NimlyLockRuntime
idle = new_runtime (text "z2m/lock") no_slots

-- A cipher that leaves blocks as they are.
abbrev pub plain_cipher : Cbc
plain_cipher = record { forth = λ key iv bs. bs; back = λ key iv bs. bs }

pub plain_cipher-IsCbc : IsCbc plain_cipher
plain_cipher-IsCbc = record { length_kept = λ key iv bs h. refl; undone = λ key iv bs h. refl }
