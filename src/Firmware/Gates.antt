-- ===== src/Firmware/Gates.antt =====
-- The capability gates of src/nimly_ble_probe/firmware.py.
use nimly_manager.Base.{◌≡◌, true, some, arith}
use nimly_manager.Firmware.{FirmwareVersion, at_least, gates}

-- A version that is at least another one has every documented capability of it; and a version with
-- the documented scan command has the documented connection.
pub gates_monotone :
    (v w : FirmwareVersion)
    → at_least w v ≡ true
    → ((gates v).ble_connection_documented ≡ some true
        → (gates w).ble_connection_documented ≡ some true)
      × ((gates v).fingerprint_scan_command_documented ≡ some true
          → (gates w).fingerprint_scan_command_documented ≡ some true)
      × ((gates v).fingerprint_scan_command_documented ≡ some true
          → (gates v).ble_connection_documented ≡ some true)
unfolding at_least
gates_monotone v w h = (λ k. ground arith, λ k. ground arith, λ k. ground arith)
