-- ===== src/Codec/Sequence.antt =====
-- The loop of `nextN` of common/bitstream.cpp as a read from the flat sequence of bits.
use flight_software.Base.{
  ℕ, zero, suc, ◌+◌, ◌-◌, ◌*◌, ◌/◌, ◌%◌, min, ◌≡◌, refl, sym, ap, ◌∙◌, Bool, true, false, ◌&&◌, ltb,
  leb, if◌then◌else◌, inl, inr, Bool-cases, arith,
}
use flight_software.Codec.Memory.{Byte, Memory, bit_at, set_byte}
use flight_software.Codec.Bitstream.{Bitstream, has_next, position, move_to, next, next_bytes}
use flight_software.Codec.Reading.{
  IsPlaced, available, advance, advance-IsPlaced, next_count, next-advance, next_bit, bit_at-place,
}

pub position-advance : (k : ℕ) (bs : Bitstream) → position (advance k bs) ≡ position bs + k
position-advance k bs = omega arith

pub advance-advance : (a b : ℕ) (bs : Bitstream) → advance a (advance b bs) ≡ advance (b + a) bs
advance-advance a b bs = ap (λ p. move_to p bs) (omega arith)

pub advance_zero : (bs : Bitstream) → IsPlaced bs → advance 0 bs ≡ bs
advance_zero bs h = grind (arith, h.offset_bound)

pub nothing_left : (bs : Bitstream) → IsPlaced bs → has_next bs ≡ false → available bs ≡ 0
nothing_left bs h done = ground (arith, h.within)

-- A round of the loop, and its end.
next_bytes-none :
    (i written : ℕ) (res : Memory) (bs : Bitstream)
    → next_bytes 0 i written res bs ≡ (written, res, bs)
unfolding next_bytes
next_bytes-none i written res bs = refl

next_bytes-more :
    (n i written : ℕ) (res : Memory) (bs : Bitstream)
    → has_next bs ≡ true
    → next_bytes (suc n) i written res bs
      ≡ next_bytes n
          (i + 1)
          (written + (next 8 (res i) bs).0)
          (set_byte res i (next 8 (res i) bs).1)
          (next 8 (res i) bs).2
unfolding next_bytes
next_bytes-more n i written res bs more = rw (more, next_bytes) refl

next_bytes-done :
    (n i written : ℕ) (res : Memory) (bs : Bitstream)
    → has_next bs ≡ false
    → next_bytes n i written res bs ≡ (written, res, bs)
unfolding next_bytes
next_bytes-done zero i written res bs done = refl
next_bytes-done (suc n) i written res bs done = rw (done, next_bytes) refl

pub available-advance : (k : ℕ) (bs : Bitstream) → available (advance k bs) ≡ available bs - k
available-advance k bs = omega arith

-- A round of the loop, with what `next` does written out.
next_bytes_round :
    (n i written : ℕ) (res : Memory) (bs : Bitstream)
    → IsPlaced bs
    → has_next bs ≡ true
    → next_bytes (suc n) i written res bs
      ≡ next_bytes n
          (i + 1)
          (written + min 8 (available bs))
          (set_byte res i (next 8 (res i) bs).1)
          (advance (min 8 (available bs)) bs)
next_bytes_round n i written res bs h more =
    next_bytes-more n i written res bs more
    ∙ ap
        (λ k.
          next_bytes n (i + 1) (written + k) (set_byte res i (next 8 (res i) bs).1)
            (next 8 (res i) bs).2)
        (next_count 8 (res i) bs h more (omega arith))
    ∙ ap
        (next_bytes n (i + 1) (written + min 8 (available bs))
          (set_byte res i (next 8 (res i) bs).1))
        (next-advance 8 (res i) bs h more (omega arith))

advanced : (bs : Bitstream) → IsPlaced bs → IsPlaced (advance (min 8 (available bs)) bs)
advanced bs h = advance-IsPlaced (min 8 (available bs)) bs h (omega arith)

pub next_bytes_count :
    (n i written : ℕ) (res : Memory) (bs : Bitstream)
    → IsPlaced bs
    → (next_bytes n i written res bs).0 ≡ written + min (8 * n) (available bs)
next_bytes_count zero i written res bs h =
    ap (λ r. r.0) (next_bytes-none i written res bs) ∙ omega arith
next_bytes_count (suc n) i written res bs h = elim (Bool-cases (has_next bs)) [
  | inl more ↦
      ap (λ r. r.0) (next_bytes_round n i written res bs h more)
      ∙ next_bytes_count n (i + 1) (written + min 8 (available bs))
          (set_byte res i (next 8 (res i) bs).1) (advance (min 8 (available bs)) bs) (advanced bs h)
      ∙ omega (arith, available-advance (min 8 (available bs)) bs)
  | inr done ↦
      ap (λ r. r.0) (next_bytes-done (suc n) i written res bs done)
      ∙ omega (arith, nothing_left bs h done)
]

pub next_bytes-advance :
    (n i written : ℕ) (res : Memory) (bs : Bitstream)
    → IsPlaced bs
    → (next_bytes n i written res bs).2 ≡ advance (min (8 * n) (available bs)) bs
next_bytes-advance zero i written res bs h =
    ap (λ r. r.2) (next_bytes-none i written res bs)
    ∙ sym (advance_zero bs h)
    ∙ ap (λ k. advance k bs) (omega arith)
next_bytes-advance (suc n) i written res bs h = elim (Bool-cases (has_next bs)) [
  | inl more ↦
      ap (λ r. r.2) (next_bytes_round n i written res bs h more)
      ∙ next_bytes-advance n (i + 1) (written + min 8 (available bs))
          (set_byte res i (next 8 (res i) bs).1) (advance (min 8 (available bs)) bs) (advanced bs h)
      ∙ ap (λ p. move_to p bs) (omega (arith, available-advance (min 8 (available bs)) bs))
  | inr done ↦
      ap (λ r. r.2) (next_bytes-done (suc n) i written res bs done)
      ∙ sym (advance_zero bs h)
      ∙ ap (λ k. advance k bs) (omega (arith, nothing_left bs h done))
]

-- The bits after a round and the rounds after it, from the bits `f` of the stream.
round_bit :
    (f : ℕ → Bool) (res : Memory) (u8 : Byte) (n i q a p q' a' : ℕ)
    → q' ≡ q + min 8 a
    → a' ≡ a - min 8 a
    → (p / 8 ≡ i → u8 (p % 8) ≡ (if ltb (p % 8) (min 8 a) then f (q + p % 8) else bit_at res p))
    → (if leb (8 * (i + 1)) p && ltb p (8 * (i + 1) + min (8 * n) a')
        then f (q' + (p - 8 * (i + 1)))
        else bit_at (set_byte res i u8) p)
      ≡ (if leb (8 * i) p && ltb p (8 * i + min (8 * suc n) a)
          then f (q + (p - 8 * i))
          else bit_at res p)
round_bit f res u8 n i q a p q' a' eq eq' byte = ground arith

pub next_bytes_bit :
    (n i written : ℕ) (res : Memory) (bs : Bitstream) (p : ℕ)
    → IsPlaced bs
    → bit_at (next_bytes n i written res bs).1 p ≡ (
        if leb (8 * i) p && ltb p (8 * i + min (8 * n) (available bs))
        then bit_at bs.stream (position bs + (p - 8 * i))
        else bit_at res p)
next_bytes_bit zero i written res bs p h =
    ap (λ r. bit_at r.1 p) (next_bytes-none i written res bs) ∙ ground arith
next_bytes_bit (suc n) i written res bs p h = elim (Bool-cases (has_next bs)) [
  | inl more ↦
      ap (λ r. bit_at r.1 p) (next_bytes_round n i written res bs h more)
      ∙ next_bytes_bit n (i + 1) (written + min 8 (available bs))
          (set_byte res i (next 8 (res i) bs).1) (advance (min 8 (available bs)) bs) p
          (advanced bs h)
      ∙ round_bit (bit_at bs.stream) res (next 8 (res i) bs).1 n i (position bs) (available bs) p
          (position (advance (min 8 (available bs)) bs))
          (available (advance (min 8 (available bs)) bs))
          (position-advance (min 8 (available bs)) bs) (available-advance (min 8 (available bs)) bs)
          (λ here.
            next_bit 8 (res i) bs (p % 8) h more (omega arith)
            ∙ ap
                (λ b.
                  if ltb (p % 8) (min 8 (available bs))
                  then bit_at bs.stream (position bs + p % 8)
                  else b)
                (sym (bit_at-place res i (p % 8) p (omega arith) (omega arith))))
  | inr done ↦
      ap (λ r. bit_at r.1 p) (next_bytes-done (suc n) i written res bs done)
      ∙ ground (arith, nothing_left bs h done)
]
