-- ===== src/Uplink.antt =====
-- Uplink and UplinkConsumer, src/fsw/FCCode/UplinkCommon.cpp and UplinkConsumer.cpp. The registry is
-- the sizes of the bit arrays of its writable fields, in order; the fields' state is their bit arrays,
-- from which `deserialize` sets the values.
pub mod Packets
pub mod Cycle
use flight_software.Base.{
  ℕ, zero, suc, ◌+◌, ◌-◌, ◌*◌, ◌/◌, ◌%◌, ◌^◌, Bool, true, false, not, ◌&&◌, ◌||◌, ltb, ◌==◌,
  if◌then◌else◌, List, [], ◌∷◌, Option, none, some, length,
}
use flight_software.Codec.Memory.{Memory, bit_at}
use flight_software.Codec.Bitstream.{Bitstream, Direction, new, seek_g, reset, next_n, next_bits}

-- A number in memory, the lowest byte first.
abbrev pub bytes_of : ℕ → Memory
bytes_of v i j = v / 2 ^ (8 * i + j) % 2 == 1

abbrev pub value_of : ℕ → Memory → ℕ
value_of zero m = 0
value_of (suc n) m = value_of n m + (if bit_at m n then 2 ^ n else 0)

-- The loop of `init_uplink`, by the rounds left, over the number of writable fields.
unfoldable pub index_bits : ℕ → ℕ → ℕ → ℕ
index_bits zero fields index_size = index_size
index_bits (suc n) fields index_size =
    let rest = index_bits n fields (index_size + 1) in
    if ltb 0 ((fields + 1) / 2 ^ index_size) then rest else index_size

-- A `size_t` has 32 bits, so 32 rounds are enough.
unfoldable pub init_uplink : List ℕ → ℕ
init_uplink registry = index_bits 32 (length registry) 1

unfoldable pub get_field_length : List ℕ → ℕ → ℕ
get_field_length [] field_index = 0
get_field_length (size ∷ registry) zero = size
get_field_length (size ∷ registry) (suc field_index) = get_field_length registry field_index

-- The bits of each field, by its index.
abbrev pub Fields : Type 0
Fields = ℕ → ℕ → Bool

abbrev pub mark : ℕ → (ℕ → Bool) → ℕ → Bool
mark i seen j = (j == i) || seen j

-- How a round of the loop of `_validate_packet` ends: the loop is left, the packet is refused, or there
-- is another round, with the index, the bits consumed and the stream.
pub data Check : Type 0 where
  left : Bitstream → Check
  refused : Check
  checked : ℕ → ℕ → Bitstream → Check

-- The field itself.
unfoldable pub check_field : List ℕ → ℕ → ℕ → (ℕ → Bool) → ℕ → Bitstream → Check
unfolding get_field_length seek_g
check_field registry index_size field_index is_field_updated bits_consumed bs =
    let field_len = get_field_length registry field_index in
    if field_len == 0
    then Check.refused
    else if is_field_updated field_index || not (bits_consumed == index_size)
    then Check.refused
    else (let (moved, bs') = seek_g field_len Direction.bs_end bs in
        if not (moved == field_len)
        then Check.refused
        else Check.checked field_index (bits_consumed + moved) bs')

unfoldable pub check_round : List ℕ → ℕ → ℕ → (ℕ → Bool) → Bitstream → Check
check_round registry index_size field_index is_field_updated bs =
    let (bits_consumed, bytes, bs') = next_n index_size (bytes_of field_index) bs in
    let index = value_of 32 bytes in
    if index == 0
    then Check.left bs'
    else check_field registry index_size (index - 1) is_field_updated bits_consumed bs'

-- The loop of `_validate_packet`, by the rounds left. The result is the stream behind the loop, or
-- nothing if the packet is refused.
unfoldable pub check_fields : ℕ → List ℕ → ℕ → ℕ → (ℕ → Bool) → ℕ → Bitstream → Option Bitstream
check_fields zero registry index_size field_index is_field_updated bits_checked bs = some bs
check_fields (suc n) registry index_size field_index is_field_updated bits_checked bs =
    elim (ltb bits_checked (8 * bs.max_len)) [
      | true ↦ elim (check_round registry index_size field_index is_field_updated bs) [
        | Check.left bs' ↦ some bs'
        | Check.refused ↦ none
        | Check.checked i consumed bs' ↦
            check_fields n registry index_size i (mark i is_field_updated) (bits_checked + consumed)
              bs'
      ]
      | false ↦ some bs
    ]

-- The padding after the fields.
unfoldable pub check_padding : Bitstream → Bool
check_padding bs =
    let (bits_consumed, u8, bs') = next_n 8 (bytes_of 0) bs in
    if not (value_of 8 u8 == 0) || ltb 7 bits_consumed then false else true

unfoldable pub validate_packet : List ℕ → ℕ → Bitstream → Bool
validate_packet registry index_size bs =
    elim (check_fields (8 * bs.max_len) registry index_size 0 (λ i. false) 0 (reset bs)) [
      | none ↦ false
      | some bs' ↦ check_padding bs'
    ]

-- A round of the loop of `_update_fields`: the end of the packet, a read outside of `writable_fields`,
-- or the next round, with the index, the bits consumed, the fields and the stream.
pub data Update : Type 0 where
  finished overrun : Update
  updated : ℕ → ℕ → Fields → Bitstream → Update

unfoldable pub update_round : List ℕ → ℕ → ℕ → Fields → Bitstream → Update
update_round registry index_size field_index fields bs =
    let (consumed, bytes, bs') = next_n index_size (bytes_of field_index) bs in
    let index = value_of 32 bytes in
    if index == 0
    then Update.finished
    else if not (ltb (index - 1) (length registry))
    then Update.overrun
    else (let field_len = get_field_length registry (index - 1) in
        let (read, bits, bs'') = next_bits field_len field_len (λ i. false) bs' in
        Update.updated (index - 1) (consumed + read)
          (λ j. if j == index - 1 then bits else fields j) bs'')

-- The loop of `_update_fields`, by the rounds left. The result is nothing if it reads outside of
-- `writable_fields`.
unfoldable pub update_loop : ℕ → List ℕ → ℕ → ℕ → ℕ → Fields → Bitstream → Option Fields
update_loop zero registry index_size field_index bits_consumed fields bs = some fields
update_loop (suc n) registry index_size field_index bits_consumed fields bs =
    elim (ltb bits_consumed (8 * bs.max_len)) [
      | true ↦ elim (update_round registry index_size field_index fields bs) [
        | Update.finished ↦ some fields
        | Update.overrun ↦ none
        | Update.updated i consumed fields' bs' ↦
            update_loop n registry index_size i (bits_consumed + consumed) fields' bs'
      ]
      | false ↦ some fields
    ]

unfoldable pub update_fields : List ℕ → ℕ → Bitstream → Fields → Option Fields
update_fields registry index_size bs fields =
    update_loop (8 * bs.max_len) registry index_size 0 0 fields (reset bs)

-- UplinkConsumer: the length and the pointer of the packet are the radio's fields, the pointer nothing
-- when it is null.
pub record Consumer : Type 0 where
  pub index_size : ℕ
  pub radio_mt_packet_len : ℕ
  pub radio_mt_packet : Option Memory
  pub fields : Fields

unfoldable pub initialized : List ℕ → ℕ → ℕ
initialized registry index_size = if index_size == 0 then init_uplink registry else index_size

-- `execute` where there is a packet.
unfoldable pub consume : List ℕ → Memory → Consumer → Option Consumer
consume registry packet c =
    let bs = new packet c.radio_mt_packet_len in
    elim (validate_packet registry c.index_size bs) [
      | true ↦ elim (update_fields registry c.index_size bs c.fields) [
        | none ↦ none
        | some fields' ↦ some (record c { fields = fields'; radio_mt_packet_len = 0 })
      ]
      | false ↦ some (record c { radio_mt_packet_len = 0 })
    ]

unfoldable pub execute : List ℕ → Consumer → Option Consumer
execute registry c =
    let c' = record c { index_size = initialized registry c.index_size } in
    elim c.radio_mt_packet [
      | none ↦ some c'
      | some packet ↦ if c.radio_mt_packet_len == 0 then some c' else consume registry packet c'
    ]
