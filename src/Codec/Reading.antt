-- ===== src/Codec/Reading.antt =====
-- What the reading operations of common/bitstream.cpp return, in terms of the flat sequence of bits.
use flight_software.Base.{
  ℕ, zero, suc, ◌+◌, ◌-◌, ◌*◌, ◌/◌, ◌%◌, ◌≤◌, ◌<◌, min, ◌≡◌, refl, sym, true, false, ◌&&◌, ltb, leb,
  if◌then◌else◌, arith,
}
use flight_software.Codec.Memory.{Byte, Memory, bit_at, shift_right, modify_bit}
use flight_software.Codec.Bitstream.{
  Bitstream, Direction, has_next, position, move_to, seek_g, read_bits, first_rounds, second_rounds,
  next,
}

-- The place is inside a byte, and not beyond the end of the buffer.
pub record IsPlaced (bs : Bitstream) : Type 0 where
  pub offset_bound : bs.bit_offset < 8
  pub within : position bs ≤ 8 * bs.max_len

-- The bits that are left.
abbrev pub available : Bitstream → ℕ
available bs = 8 * bs.max_len - position bs

abbrev pub advance : ℕ → Bitstream → Bitstream
advance k bs = move_to (position bs + k) bs

pub advance-IsPlaced :
    (k : ℕ) (bs : Bitstream) → IsPlaced bs → k ≤ available bs → IsPlaced (advance k bs)
advance-IsPlaced k bs h le = record { offset_bound = omega arith; within = omega (arith, h.within) }

pub seek_g_forward :
    (k : ℕ) (bs : Bitstream)
    → IsPlaced bs
    → k ≤ available bs
    → seek_g k Direction.bs_end bs ≡ (k, advance k bs)
unfolding seek_g
seek_g_forward k bs h le = ground (arith, h.within)

read_bits_lem :
    (n : ℕ) (val : Byte) (k : ℕ) (u8 : Byte) (j : ℕ)
    → read_bits n val k u8 j ≡ (if leb k j && ltb j (k + n) then val (j - k) else u8 j)
unfolding read_bits
read_bits_lem zero val k u8 j = ground arith
read_bits_lem (suc n) val k u8 j =
    ground (arith, read_bits_lem n (shift_right val 1) (k + 1) (modify_bit u8 k (val 0)) j)

rounds-within :
    (n : ℕ) (bs : Bitstream)
    → IsPlaced bs
    → has_next bs ≡ true
    → n ≤ 8
    → first_rounds n bs + second_rounds n bs ≡ min n (available bs)
rounds-within n bs h more le = ground (arith, h.within, h.offset_bound)

pub next_count :
    (n : ℕ) (u8 : Byte) (bs : Bitstream)
    → IsPlaced bs
    → has_next bs ≡ true
    → n ≤ 8
    → (next n u8 bs).0 ≡ min n (available bs)
unfolding next
next_count n u8 bs h more le = ground (arith, rounds-within n bs h more le)

pub next-advance :
    (n : ℕ) (u8 : Byte) (bs : Bitstream)
    → IsPlaced bs
    → has_next bs ≡ true
    → n ≤ 8
    → (next n u8 bs).2 ≡ advance (min n (available bs)) bs
unfolding next
next-advance n u8 bs h more le =
    ground (
      arith,
      rounds-within n bs h more le,
      seek_g_forward (min n (available bs)) bs h (omega arith),
    )

-- A bit by its place in a byte.
pub bit_at-place : (m : Memory) (i j p : ℕ) → j < 8 → p ≡ 8 * i + j → bit_at m p ≡ m i j
bit_at-place m i j p lt eq = rw (byte, place) refl
  where
    byte : p / 8 ≡ i
    byte = omega arith

    place : p % 8 ≡ j
    place = omega arith

-- The two loops of `next` one after the other.
read_bits_twice :
    (a c : ℕ) (v w u8 : Byte) (j : ℕ)
    → read_bits c w a (read_bits a v 0 u8) j
      ≡ (if ltb j a then v j else if ltb j (a + c) then w (j - a) else u8 j)
read_bits_twice a c v w u8 j =
    ground (arith, read_bits_lem a v 0 u8 j, read_bits_lem c w a (read_bits a v 0 u8) j)

-- The bits of `next` by the byte they come from.
next-bytes :
    (n : ℕ) (u8 : Byte) (bs : Bitstream) (j : ℕ)
    → n ≤ 8
    → (next n u8 bs).1 j ≡ (
        if ltb j (first_rounds n bs)
        then bs.stream bs.byte_offset (j + bs.bit_offset)
        else if ltb j (first_rounds n bs + second_rounds n bs)
        then bs.stream (bs.byte_offset + 1) (j - first_rounds n bs)
        else u8 j)
unfolding next
next-bytes n u8 bs j le = rw (not_above) (
    read_bits_twice (first_rounds n bs) (second_rounds n bs)
      (shift_right (bs.stream bs.byte_offset) bs.bit_offset) (bs.stream (bs.byte_offset + 1)) u8 j)
  where
    not_above : ltb 8 n ≡ false
    not_above = ground arith

next_bit-first :
    (n : ℕ) (bs : Bitstream) (j : ℕ)
    → IsPlaced bs
    → j < first_rounds n bs
    → bs.stream bs.byte_offset (j + bs.bit_offset) ≡ bit_at bs.stream (position bs + j)
next_bit-first n bs j h lt = sym (
    bit_at-place bs.stream bs.byte_offset (j + bs.bit_offset) (position bs + j)
      (omega (arith, h.offset_bound)) (omega arith))

next_bit-second :
    (n : ℕ) (bs : Bitstream) (j : ℕ)
    → IsPlaced bs
    → first_rounds n bs ≤ j
    → j < first_rounds n bs + second_rounds n bs
    → bs.stream (bs.byte_offset + 1) (j - first_rounds n bs) ≡ bit_at bs.stream (position bs + j)
next_bit-second n bs j h le lt = sym (
    bit_at-place bs.stream (bs.byte_offset + 1) (j - first_rounds n bs) (position bs + j)
      (ground (arith, h.offset_bound)) (ground (arith, h.offset_bound)))

pub next_bit :
    (n : ℕ) (u8 : Byte) (bs : Bitstream) (j : ℕ)
    → IsPlaced bs
    → has_next bs ≡ true
    → n ≤ 8
    → (next n u8 bs).1 j
      ≡ (if ltb j (min n (available bs)) then bit_at bs.stream (position bs + j) else u8 j)
next_bit n u8 bs j h more le =
    joined (first_rounds n bs) (second_rounds n bs) (rounds-within n bs h more le)
      (next-bytes n u8 bs j le) (next_bit-first n bs j h) (next_bit-second n bs j h)
  where
    joined :
        (a c : ℕ)
        → a + c ≡ min n (available bs)
        → (next n u8 bs).1 j ≡ (
            if ltb j a
            then bs.stream bs.byte_offset (j + bs.bit_offset)
            else if ltb j (a + c)
            then bs.stream (bs.byte_offset + 1) (j - a)
            else u8 j)
        → (j < a
            → bs.stream bs.byte_offset (j + bs.bit_offset) ≡ bit_at bs.stream (position bs + j))
        → (a ≤ j
            → j < a + c
            → bs.stream (bs.byte_offset + 1) (j - a) ≡ bit_at bs.stream (position bs + j))
        → (next n u8 bs).1 j
          ≡ (if ltb j (min n (available bs)) then bit_at bs.stream (position bs + j) else u8 j)
    joined a c total bytes first second = ground arith
