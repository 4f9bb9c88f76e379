-- ===== src/Codec/Bitstream.antt =====
-- bitstream, src/common/bitstream.cpp. Streams are shorter than 2^28 bytes, so that bit offsets fit an
-- `int`. A function that writes through a pointer takes the memory there and returns it.
use flight_software.Base.{
  ℕ, zero, suc, ◌+◌, ◌-◌, ◌*◌, ◌/◌, ◌%◌, min, Bool, true, false, not, ◌&&◌, ◌||◌, ltb, ◌==◌,
  if◌then◌else◌,
}
use flight_software.Codec.Memory.{Byte, Memory, set_byte, clear_bytes, shift_right, modify_bit}

pub record Bitstream : Type 0 where
  pub bit_offset : ℕ
  pub stream : Memory
  pub byte_offset : ℕ
  pub max_len : ℕ

-- The constructor from a buffer.
abbrev pub new : Memory → ℕ → Bitstream
new input stream_size = record {
  bit_offset = 0;
  stream = input;
  byte_offset = 0;
  max_len = stream_size;
}

-- bs_beg and bs_end; any other number is `other`.
pub data Direction : Type 0 where
  bs_beg bs_end other : Direction

abbrev pub has_next : Bitstream → Bool
has_next bs = ltb bs.byte_offset bs.max_len

-- The place of the next bit.
abbrev pub position : Bitstream → ℕ
position bs = 8 * bs.byte_offset + bs.bit_offset

abbrev pub move_to : ℕ → Bitstream → Bitstream
move_to p bs = record bs { byte_offset = p / 8; bit_offset = p % 8 }

-- The result says how far the position has moved.
unfoldable pub seek_g : ℕ → Direction → Bitstream → ℕ × Bitstream
seek_g amt Direction.other bs = (0, bs)
seek_g amt Direction.bs_end bs =
    if ltb (8 * bs.max_len) (position bs + amt)
    then (0, bs)
    else (amt, move_to (position bs + amt) bs)
seek_g amt Direction.bs_beg bs =
    if ltb (8 * bs.max_len + amt) (position bs) || ltb (position bs) amt
    then (0, bs)
    else (amt, move_to (position bs - amt) bs)

unfoldable pub reset : Bitstream → Bitstream
reset bs = record bs { byte_offset = 0; bit_offset = 0 }

-- The loops of `next`, by the rounds left: bits of `val` go to `u8` from place `bits_read` on.
unfoldable pub read_bits : ℕ → Byte → ℕ → Byte → Byte
read_bits zero val bits_read u8 = u8
read_bits (suc n) val bits_read u8 =
    read_bits n (shift_right val 1) (bits_read + 1) (modify_bit u8 bits_read (val 0))

-- The number of rounds of the two loops of `next` and `edit`.
abbrev pub first_rounds : ℕ → Bitstream → ℕ
first_rounds num_bits bs = min (8 - bs.bit_offset) num_bits

abbrev pub second_rounds : ℕ → Bitstream → ℕ
second_rounds num_bits bs =
    let done = first_rounds num_bits bs in
    if ltb (bs.byte_offset + 1) bs.max_len && ltb done num_bits
    then min bs.bit_offset (num_bits - done)
    else 0

unfoldable pub next : ℕ → Byte → Bitstream → ℕ × Byte × Bitstream
unfolding read_bits seek_g
next num_bits u8 bs =
    if ltb 8 num_bits
    then (0, u8, bs)
    else (let val = shift_right (bs.stream bs.byte_offset) bs.bit_offset in
        let first = first_rounds num_bits bs in
        let u8₁ = read_bits first val 0 u8 in
        let second = second_rounds num_bits bs in
        let u8₂ = read_bits second (bs.stream (bs.byte_offset + 1)) first u8₁ in
        (first + second, u8₂, (seek_g (first + second) Direction.bs_end bs).1))

-- The loop of `nextN`, by the rounds left.
unfoldable pub next_bytes : ℕ → ℕ → ℕ → Memory → Bitstream → ℕ × Memory × Bitstream
unfolding next
next_bytes zero i bits_written res bs = (bits_written, res, bs)
next_bytes (suc n) i bits_written res bs = elim (has_next bs) [
  | true ↦
      let (k, u8, bs') = next 8 (res i) bs in
      next_bytes n (i + 1) (bits_written + k) (set_byte res i u8) bs'
  | false ↦ (bits_written, res, bs)
]

-- `nextN` into bytes.
unfoldable pub next_n : ℕ → Memory → Bitstream → ℕ × Memory × Bitstream
unfolding next_bytes
next_n num_bits res bs =
    let num_iters = num_bits / 8 in
    let (written, res₁, bs₁) = next_bytes num_iters 0 0 (clear_bytes res ((num_bits + 7) / 8)) bs in
    let modulo = num_bits % 8 in
    if not (modulo == 0) && has_next bs₁
    then (let (k, u8, bs₂) = next modulo (res₁ num_iters) bs₁ in
        (written + k, set_byte res₁ num_iters u8, bs₂))
    else (written, res₁, bs₁)

-- A byte as a bool.
abbrev pub nonzero : Byte → Bool
nonzero b = b 0 || b 1 || b 2 || b 3 || b 4 || b 5 || b 6 || b 7

-- The loop of `nextN` into a bit array, by the rounds left.
unfoldable pub next_rounds : ℕ → ℕ → Byte → (ℕ → Bool) → Bitstream → ℕ × (ℕ → Bool) × Bitstream
unfolding next
next_rounds zero bits_written u8 bit_arr bs = (bits_written, bit_arr, bs)
next_rounds (suc n) bits_written u8 bit_arr bs = elim (has_next bs) [
  | true ↦
      let (k, u8', bs') = next 1 u8 bs in
      elim (k == 0) [
        | true ↦ (bits_written, bit_arr, bs')
        | false ↦
            next_rounds n (bits_written + 1) u8'
              (λ i. if i == bits_written then nonzero u8' else bit_arr i) bs'
      ]
  | false ↦ (bits_written, bit_arr, bs)
]

-- `nextN` into a bit array of `arr_size` bits.
unfoldable pub next_bits : ℕ → ℕ → (ℕ → Bool) → Bitstream → ℕ × (ℕ → Bool) × Bitstream
unfolding next_rounds
next_bits num_bits arr_size bit_arr bs =
    if ltb arr_size num_bits
    then (0, bit_arr, bs)
    else next_rounds num_bits 0 (λ i. false) (λ i. if ltb i arr_size then false else bit_arr i) bs

unfoldable pub peek_n : ℕ → Memory → Bitstream → ℕ × Memory × Bitstream
unfolding next_n seek_g
peek_n num_bits res bs =
    let (peeked, res', bs') = next_n num_bits res bs in
    (peeked, res', (seek_g peeked Direction.bs_beg bs').1)

-- The loops of `edit`, by the rounds left: bits of `u8` go to `old` from place `i` on.
unfoldable pub write_bits : ℕ → ℕ → Byte → Byte → Byte
write_bits zero i u8 old = old
write_bits (suc n) i u8 old = write_bits n (i + 1) (shift_right u8 1) (modify_bit old i (u8 0))

unfoldable pub edit : ℕ → Byte → Bitstream → ℕ × Bitstream
unfolding write_bits seek_g
edit num_bits val bs =
    let first = first_rounds num_bits bs in
    let old = bs.stream bs.byte_offset in
    let m₁ = set_byte bs.stream bs.byte_offset (write_bits first bs.bit_offset val old) in
    let second = second_rounds num_bits bs in
    let m₂ =
      if ltb (bs.byte_offset + 1) bs.max_len && ltb first num_bits
      then set_byte m₁ (bs.byte_offset + 1)
          (write_bits second 0 (shift_right val first) (m₁ (bs.byte_offset + 1)))
      else m₁ in
    (first + second, (seek_g (first + second) Direction.bs_end (record bs { stream = m₂ })).1)

-- The loop of `editN`, by the rounds left.
unfoldable pub edit_bytes : ℕ → ℕ → ℕ → Memory → Bitstream → ℕ × Bitstream
unfolding edit
edit_bytes zero i bits_written new_val bs = (bits_written, bs)
edit_bytes (suc n) i bits_written new_val bs =
    let (k, bs') = edit 8 (new_val i) bs in edit_bytes n (i + 1) (bits_written + k) new_val bs'

-- `editN` from bytes.
unfoldable pub edit_n : ℕ → Memory → Bitstream → ℕ × Bitstream
unfolding edit_bytes
edit_n num_bits new_val bs =
    let num_iters =
      if ltb (bs.byte_offset + bs.max_len) (num_bits / 8)
      then bs.max_len - bs.byte_offset
      else num_bits / 8 in
    let modulo = num_bits % 8 in
    let (written, bs₁) = edit_bytes num_iters 0 0 new_val bs in
    if not (modulo == 0)
    then (let (k, bs₂) = edit modulo (new_val num_iters) bs₁ in (written + k, bs₂))
    else (written, bs₁)

-- `editN` from another stream, of which the result has the rest. `tmp` is an array on the stack.
unfoldable pub edit_from : ℕ → Memory → Bitstream → Bitstream → ℕ × Bitstream × Bitstream
unfolding next_n edit_n
edit_from num_bits tmp bs_other bs =
    let (read, bytes, rest) = next_n num_bits (clear_bytes tmp ((num_bits + 7) / 8)) bs_other in
    let (written, bs') = edit_n read bytes bs in (written, rest, bs')

-- `bs_other << bs`.
unfoldable pub write_all : Memory → Bitstream → Bitstream → Bitstream × Bitstream
unfolding edit_from
write_all tmp bs_other bs =
    let num_bits = (bs_other.max_len - bs_other.byte_offset) * 8 - bs_other.bit_offset in
    let (written, rest, bs') = edit_from num_bits tmp bs_other bs in (rest, bs')
