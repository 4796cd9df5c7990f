-- ===== src/Protocol/Reassembler.antt =====
-- `Reassembler` of custom_components/nimly_manager/nimly_ble/protocol.py: packets are collected
-- into whole payloads. An attribute written before a raise stays written.
use nimly_manager.Base.{
  ℕ, ◌+◌, ◌%◌, Bool, true, false, not, Option, none, some, ◌++◌, ltb, ◌==◌, Bytes, length, take,
  drop, from_little, if◌then◌else◌,
}
use nimly_manager.Base.Result.{ok, err, Exec}
use nimly_manager.Protocol.Packet.{
  Error, blob_without_header, blob_without_start, blob_sequence, blob_total, assertion, PacketType,
  single, single_encrypted, blob_start, blob_stream, blob_complete, ack, nac, error, Packet,
  from_bytes,
}

pub record Reassembler : Type 0 where
  pub buffer : Option Bytes
  pub expected_total : ℕ
  pub next_seq : ℕ

-- Reassembler()
abbrev pub fresh : Reassembler
fresh = record { buffer = none; expected_total = 0; next_seq = 0 }

-- Reassembler._finish_if_done on the buffer that `self._buffer` holds
unfoldable pub finish_buffer : Bool → Option Bytes → Exec Error Reassembler (Option Bytes)
finish_buffer final none r = (err assertion, r)
finish_buffer final (some buffer) r =
    if not final
    then (ok none, r)
    else if not (length buffer == r.expected_total)
    then (err (blob_total (length buffer) r.expected_total), r)
    else (ok (some buffer), record r { buffer = none })

unfoldable pub finish_if_done : Bool → Exec Error Reassembler (Option Bytes)
unfolding finish_buffer
finish_if_done final r = finish_buffer final r.buffer r

-- The branch of `feed` for a BlobStart.
unfoldable pub start_blob : Packet → Exec Error Reassembler (Option Bytes)
unfolding finish_if_done
start_blob p r =
    if ltb (length p.payload) 4
    then (err blob_without_header, r)
    else finish_if_done false (record {
      buffer = some (drop 4 p.payload);
      expected_total = from_little (take 2 (drop 1 p.payload));
      next_seq = (p.seq + 1) % 256;
    })

-- The branch of `feed` for BlobStream and BlobComplete.
unfoldable pub continue_blob : Bool → Packet → Option Bytes → Exec Error Reassembler (Option Bytes)
unfolding finish_if_done
continue_blob final p none r = (err blob_without_start, r)
continue_blob final p (some buffer) r =
    if not (p.seq == r.next_seq)
    then (err (blob_sequence p.seq r.next_seq), r)
    else finish_if_done final
        (record r { buffer = some (buffer ++ p.payload); next_seq = (r.next_seq + 1) % 256 })

unfoldable pub feed_packet : PacketType → Packet → Exec Error Reassembler (Option Bytes)
unfolding start_blob continue_blob
feed_packet single p r = (ok (some p.payload), record r { buffer = none })
feed_packet single_encrypted p r = (ok (some p.payload), record r { buffer = none })
feed_packet blob_start p r = start_blob p r
feed_packet blob_stream p r = continue_blob false p r.buffer r
feed_packet blob_complete p r = continue_blob true p r.buffer r
feed_packet ack p r = (ok none, r)
feed_packet nac p r = (ok none, r)
feed_packet error p r = (ok none, r)

-- Reassembler.feed
unfoldable pub feed : Bytes → Exec Error Reassembler (Option Bytes)
unfolding feed_packet
feed frame r = elim (from_bytes frame) [ err e ↦ (err e, r) | ok p ↦ feed_packet p.type p r ]
