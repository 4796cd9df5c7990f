-- ===== src/Lib.antt =====
-- nimly_manager: a Home Assistant integration that enrolls fingerprints on a Nimly lock, over the
-- lock's keypad or over Bluetooth, and follows the lock over MQTT.
--
-- The parts and how they interact. custom_components/nimly_manager/nimly_ble/protocol.py is the
-- wire protocol: a payload is a command or a response (layer 2), cut into packets (layer 1) that
-- the receiver collects again. custom_components/nimly_manager/fingerprint_enrollment.py and
-- fingerprint_scan.py are two workflows, each a small state machine with an expiry.
-- custom_components/nimly_manager/slots.py is the registry of fingerprint slots that are known.
-- custom_components/nimly_manager/runtime.py holds, for one lock, at most one session of each
-- workflow and the registry, and turns MQTT messages into observed and verified slots; storage.py
-- keeps the registries of all locks across restarts. Over Bluetooth, nimly_ble/session.py of the
-- same directory is one conversation with a lock: it encrypts with crypto.py and frames with
-- protocol.py. nimly_ble/enrollment.py uses a session to take ownership of a lock, with the key
-- kept by nimly_ble/keystore.py, and to scan a finger. ble_scan.py runs such a scan in a task that
-- moves the scan of fingerprint_scan.py along, and scan_control.py has the gates in front of it.
-- config_flow.py makes the config entries, one for each lock, ble_setup.py gives an entry its BLE
-- address and its owner key, which owner_store.py keeps, __init__.py loads and unloads the runtime
-- of an entry, mqtt.py brings it messages, and services.py and websocket.py are the calls by which
-- users reach it.
--
-- Which file models which part.
--   Base and its files: the tests, lists, bytes, integers, results and actions that the others share.
--   Protocol.Packet, Protocol.Frame, Protocol.Reassembler, Protocol.Message, Protocol.Payloads and
--     Protocol.Events: `Packet`, `frame_payload`, `Reassembler`, `Command`/`Response`/
--     `CommandRefCounter`, the payload builders and parsers, and `parse_event` of protocol.py.
--   Text, Text.Trim, Text.Number, Text.Hex, Text.Floating, Dict, Dict.Texts, Time, Time.Iso, Value:
--     what the program uses of Python's `str`, `int`, `bytes.fromhex`, `float`, `dict`, `datetime` and
--     of JSON values.
--   States, Request: the states and errors of both workflows, and the tests both `start`s make.
--   Enrollment, Scan: the classes `FingerprintEnrollment` and `BleFingerprintScan`, a method each.
--   Slots, Slots.Store: `FingerprintSlotRegistry`, and its `from_storage`.
--   Storage: `NimlySlotStorage` of custom_components/nimly_manager/storage.py.
--   Runtime, Runtime.Mqtt, Runtime.Report: `NimlyLockRuntime`; its methods that users call, its
--     `observe_mqtt_state`, and what it shows.
--   Crypto: custom_components/nimly_manager/nimly_ble/crypto.py, with AES-CBC as the parameter `Cbc`
--     and the elliptic curve as the parameter `Curve`.
--   Session: `Session` of custom_components/nimly_manager/nimly_ble/session.py, a method each.
--   KeyStore: `OwnerRecord`, `owner_record_from_json` and `OwnerKeyStore` of
--     custom_components/nimly_manager/nimly_ble/keystore.py.
--   Owner, Owner.Flows, Owner.Scanning: `preflight` and `enroll`, and `fingerprint_scan` and
--     `scan_fingerprint`, of custom_components/nimly_manager/nimly_ble/enrollment.py.
--   KeyStore.Dictionary, OwnerStore: `as_dict` and the constructor of `OwnerRecord`, and
--     `NimlyOwnerKeyStore` of custom_components/nimly_manager/owner_store.py.
--   Entries: `state_topic` of custom_components/nimly_manager/const.py, and `async_step_user` of
--     config_flow.py.
--   Mac, BleSetup: custom_components/nimly_manager/ble_setup.py, with `normalize_mac` in Mac.
--   Home: what `async_setup` of custom_components/nimly_manager/__init__.py keeps in `hass.data`.
--   Actions: the actions of custom_components/nimly_manager/services.py, and the commands of
--     websocket.py that answer with a session or a scan.
--   Panel: `websocket_state` and `websocket_ble_candidates` of websocket.py, and `ble_status` of
--     ble_transport.py.
--   BleSetup.OptionsFlow: `NimlyManagerOptionsFlow.async_step_init` of config_flow.py.
--   OwnerCli: `_find_lock`, `_run` and `main` of custom_components/nimly_manager/nimly_ble/cli.py.
--   Integration: the life of an entry of custom_components/nimly_manager/__init__.py, the messages of
--     mqtt.py, and `websocket_ble_setup` of websocket.py.
--   Coordinator, Coordinator.Run: `FingerprintScanCoordinator` of
--     custom_components/nimly_manager/ble_scan.py, and its `_run`.
--   ScanControl: custom_components/nimly_manager/scan_control.py.
--   Advertisement: src/nimly_ble_probe/advertisement.py, with the digest as a parameter.
--   Firmware: src/nimly_ble_probe/firmware.py, and `parse_firmware` of
--     custom_components/nimly_manager/nimly_ble/constants.py.
--   The files below these, and Protocol.RoundTrip and Protocol.Safety, hold the proofs. Tests and its
--   files run the models.
--
-- How state corresponds. An object is a record with the object's attributes. A method is an action:
-- from the object it gives what the method returns or raises, and the object as it is left, so what
-- was written before a raise stays written. A runtime holds its session, scan and registry by value;
-- the program shares the scan with the Bluetooth workflow, whose calls are steps on the runtime's
-- scan in Runtime.Steps. The text that `uuid4` makes is an argument. `on_change` of the registry is
-- the number of its calls. What a session hears is part of its state: a `Round` for each command, with
-- the frames that come before it, during it and after it, and the packet whose write raises; so a
-- theorem about every session is about everything that a lock, or anybody else on the air, can do.
-- The disk may refuse a write of the key store before or after the file is replaced. A task of the
-- coordinator may be interrupted before or after its prompt, and what others do to its scan and to the
-- coordinator meanwhile is a function. Home Assistant starts a task at once: whether it gets to its
-- first wait before `async_start` goes on, or raises before, is the argument `Beginning`. Keys,
-- clocks and the texts of exceptions are arguments. Dictionaries that are shown are lists of keys and
-- values.
--
-- Numbers and fuel. Bytes are natural numbers, and what `bytes([...])` and `to_bytes` refuse is
-- refused. Times are microseconds since year 1 with a fixed UTC offset; a naive time has none. The
-- fuel of `chunks_from` is the length of what it cuts, since each round takes a byte; the fuel of the
-- decimal printer is the number plus one, since each round divides by ten. `int(str)` reads all
-- decimal digits of Unicode 14, and refuses more than 4300 of them. `str.lower` is exact as far as
-- it is compared with ASCII words. A float is read only as its whole part and its text.
--
-- Shared objects of an installation. The registry of a loaded lock belongs to its runtime and to the
-- storage, and `put_runtime` leaves it in both. Home Assistant itself is not modelled: whether a
-- subscription returns and whether a topic is configured are arguments, entries come and go as they
-- like, and an entry is removed when it is not loaded. The schemas that check the arguments of an
-- action first, and the test for an administrator, are left out: an action takes any arguments.
--
-- What is not modelled: the fields of the forms, the registration of the panel and of the actions, the
-- transports and the parsers of command lines, which are input and output around the parts above; the
-- rest of the probe, and the JavaScript panel. Files of the key store are given by the values written
-- to them, and the lock of `send` by the commands being in turn. The cipher takes keys and IVs of any
-- length, so the ValueError for one of a wrong length is left out. Of a task that is told to stop, or
-- dropped from the coordinator, only its own end is modelled, not the order of the tasks.
pub mod Base
pub mod Protocol
pub mod Text
pub mod Time
pub mod Value
pub mod States
pub mod Request
pub mod Enrollment
pub mod Scan
pub mod Dict
pub mod Slots
pub mod Runtime
pub mod Advertisement
pub mod Crypto
pub mod Firmware
pub mod Entries
pub mod Session
pub mod KeyStore
pub mod Mac
pub mod BleSetup
pub mod Owner
pub mod OwnerStore
pub mod OwnerCli
pub mod Coordinator
pub mod Storage
pub mod Home
pub mod ScanControl
pub mod Actions
pub mod Panel
pub mod Integration
pub mod Tests
