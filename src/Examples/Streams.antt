-- ===== src/Examples/Streams.antt =====
-- The bit stream, the serializers and the uplink at concrete inputs.
use flight_software.Base.{
  ℕ, ◌+◌, ◌-◌, ◌*◌, ◌/◌, ◌%◌, min, ◌≡◌, refl, true, false, ◌&&◌, ◌||◌, ltb, leb, ◌==◌,
  if◌then◌else◌, List, [], ◌∷◌, some, arith,
}
use flight_software.Codec.Memory.{Memory, bit_at, clear_bytes}
use flight_software.Codec.Bitstream
use flight_software.Codec.Bitstream.{Bitstream, Direction, new, position, seek_g, next_n, edit_n}
use flight_software.Codec.Reading.{IsPlaced, available}
use flight_software.Codec.Whole.{next_n_bit}
use flight_software.Codec.RoundTrip.{edit_n_bit, next_n-edit_n}
use flight_software.Codec.Integer
use flight_software.Codec.Integer.{Serializer, IsSerializer, sized, full, clamp, resolution}
use flight_software.Codec.Integer.Precision.{serialize_exact}
use flight_software.Uplink
use flight_software.Uplink.{
  Fields, validate_packet, update_fields, check_fields, execute, init_uplink, initialized, Consumer,
}
use flight_software.Uplink.Cycle.{update_fields-validate_packet, waiting, execute_total}

abbrev zeros : Memory
zeros i j = false

abbrev stripes : Memory
stripes i j = (i + j) % 2 == 0

-- Four bytes, three bits of which are read.
abbrev begun : Bitstream
begun = record { bit_offset = 3; stream = zeros; byte_offset = 0; max_len = 4 }

begun-IsPlaced : IsPlaced begun
begun-IsPlaced = record { offset_bound = omega arith; within = omega arith }

next_n-edit_n_example :
    bit_at
      (next_n 10 zeros
        (seek_g (edit_n 10 stripes begun).0 Direction.bs_beg (edit_n 10 stripes begun).1).1).1
      9
    ≡ bit_at stripes 9
next_n-edit_n_example =
    next_n-edit_n 10 stripes zeros begun 9 begun-IsPlaced (omega arith) (omega arith)

edit_n_bit_example : bit_at (edit_n 10 stripes begun).1.stream 5 ≡ (
    if leb (position begun) 5 && ltb 5 (position begun + 10)
    then bit_at stripes (5 - position begun)
    else bit_at begun.stream 5)
edit_n_bit_example = edit_n_bit 10 stripes begun 5 begun-IsPlaced (omega arith)

next_n_bit_example : bit_at (next_n 10 stripes begun).1 4 ≡ (
    if ltb 4 (min 10 (available begun))
    then bit_at begun.stream (position begun + 4)
    else bit_at (clear_bytes stripes ((10 + 7) / 8)) 4)
next_n_bit_example = next_n_bit 10 stripes begun 4 begun-IsPlaced

-- 100 to 1000 in four bits: steps of 60.
abbrev coarse : Serializer
coarse = sized 100 1000 4

coarse-IsSerializer : IsSerializer coarse
coarse-IsSerializer = record { ordered = omega arith; word = omega arith; bits = omega arith }

coarse_step : resolution coarse ≡ 60
unfolding resolution
coarse_step = refl

serialize_exact_example :
    Integer.deserialize (Integer.serialize 42 (full 5 100)) ≡ clamp (full 5 100) 42
serialize_exact_example = serialize_exact 5 100 42 (omega arith) (omega arith)

-- One writable field of eight bits, and a packet that sets it: the index 1 in two bits, the field, and
-- zeros.
abbrev registry : List ℕ
registry = 8 ∷ []

abbrev packet : Memory
packet i j = (8 * i + j == 0) || (leb 2 (8 * i + j) && ltb (8 * i + j) 10)

abbrev untouched : Fields
untouched i j = false

packet_passes : validate_packet registry 2 (new packet 2) ≡ true
unfolding validate_packet check_fields Uplink.check_round Uplink.check_field Uplink.check_padding
    Uplink.get_field_length Bitstream.reset next_n Bitstream.next_bytes Bitstream.next
    Bitstream.read_bits seek_g
packet_passes = refl

update_fields-validate_packet_example :
    (fields : Fields) × update_fields registry 2 (new packet 2) untouched ≡ some fields
update_fields-validate_packet_example =
    update_fields-validate_packet registry 2 (new packet 2) untouched packet_passes

execute_total_example :
    (c : Consumer) × (execute registry (waiting 0 2 packet untouched) ≡ some c)
    × (c.radio_mt_packet_len ≡ 0)
execute_total_example = execute_total registry 0 2 packet untouched
