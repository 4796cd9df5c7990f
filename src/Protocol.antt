-- ===== src/Protocol.antt =====
-- custom_components/nimly_manager/nimly_ble/protocol.py: the wire format of the lock's BLE protocol.
pub mod Packet
pub mod Frame
pub mod Reassembler
pub mod RoundTrip
pub mod Safety
pub mod Message
pub mod Payloads
pub mod Events
