-- ===== src/Downlink.antt =====
-- DownlinkProducer, src/fsw/FCCode/DownlinkProducer.cpp. The snapshot is the sequence of its bits, the
-- highest bit of a byte first, as `to_string` of src/common/fixed_array.hpp writes them.
pub mod Headers
pub mod Flows
pub mod Size
use flight_software.Base.{
  ℕ, zero, suc, ◌+◌, ◌-◌, ◌*◌, ◌/◌, ◌%◌, Bool, true, false, ◌==◌, ltb, leb, if◌then◌else◌, List, [],
  ◌∷◌, length,
}

abbrev pub num_bits_in_packet : ℕ
num_bits_in_packet = 560

pub record BitArray : Type 0 where
  pub size : ℕ
  pub bits : ℕ → Bool

-- A flow with its id's bits, and its fields' bits as `serialize` leaves them.
pub record Flow : Type 0 where
  pub id : ℕ
  pub id_bits : BitArray
  pub is_active : Bool
  pub field_list : List BitArray

pub record Frame : Type 0 where
  pub snapshot : ℕ → Bool
  pub packet_offset : ℕ
  pub downlink_frame_offset : ℕ

abbrev pub set_bit : ℕ → Bool → (ℕ → Bool) → ℕ → Bool
set_bit p b snapshot q = if q == p then b else snapshot q

-- The loop of `to_string`, by the bits left.
unfoldable pub to_string : ℕ → ℕ → (ℕ → Bool) → ℕ → (ℕ → Bool) → ℕ → Bool
to_string zero i bits offset snapshot = snapshot
to_string (suc n) i bits offset snapshot =
    to_string n (i + 1) bits (offset + 1) (set_bit offset (bits i) snapshot)

-- Bit 7 of a byte is the first of its bits.
abbrev pub byte_start : ℕ → ℕ
byte_start byte = 8 * byte

-- The branch of a field that runs past the end of the packet.
unfoldable pub split_field : BitArray → Frame → Frame
split_field field f =
    let field_overflow = field.size + f.packet_offset - num_bits_in_packet in
    let x = field.size - field_overflow in
    let first = to_string x 0 field.bits f.downlink_frame_offset f.snapshot in
    let offset = f.downlink_frame_offset + x in
    let marked = set_bit (byte_start (offset / 70)) false first in
    record {
      snapshot = to_string field_overflow x field.bits (offset + 1) marked;
      packet_offset = 1 + field_overflow;
      downlink_frame_offset = offset + 1 + field_overflow;
    }

unfoldable pub add_bits_to_downlink_frame : BitArray → Frame → Frame
unfolding split_field
add_bits_to_downlink_frame field f =
    if leb (field.size + f.packet_offset) num_bits_in_packet
    then record {
      snapshot = to_string field.size 0 field.bits f.downlink_frame_offset f.snapshot;
      packet_offset = f.packet_offset + field.size;
      downlink_frame_offset = f.downlink_frame_offset + field.size;
    }
    else split_field field f

unfoldable pub add_fields : List BitArray → Frame → Frame
add_fields [] f = f
add_fields (field ∷ fields) f = add_fields fields (add_bits_to_downlink_frame field f)

unfoldable pub add_flows : List Flow → Frame → Frame
add_flows [] f = f
add_flows (flow ∷ flows) f = add_flows flows (
    if flow.is_active
    then add_fields flow.field_list (add_bits_to_downlink_frame flow.id_bits f)
    else f)

-- The loop at the end of the frame, by the bits left: bit `i - 1` of the last byte is cleared, and so on
-- down to bit 0.
unfoldable pub clear_low : ℕ → ℕ → (ℕ → Bool) → ℕ → Bool
clear_low zero byte snapshot = snapshot
clear_low (suc i) byte snapshot = clear_low i byte (set_bit (8 * byte + (7 - i)) false snapshot)

unfoldable pub fill_last : Frame → Frame
fill_last f = record f {
  snapshot = clear_low (8 - f.downlink_frame_offset % 8) (f.downlink_frame_offset / 8) f.snapshot;
}

-- The frame that `execute` writes, with the bits of the control cycle count.
unfoldable pub produce : BitArray → List Flow → (ℕ → Bool) → Frame
produce cycle_count flows snapshot = fill_last (
    add_flows flows (
      add_bits_to_downlink_frame cycle_count (record {
        snapshot = set_bit (byte_start 0) true snapshot;
        packet_offset = 1;
        downlink_frame_offset = 1;
      })))
