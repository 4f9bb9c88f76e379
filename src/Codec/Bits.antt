-- ===== src/Codec/Bits.antt =====
-- `nextN` of common/bitstream.cpp into a bit array, as a read from the flat sequence of bits.
use flight_software.Base.{
  ℕ, zero, suc, ◌+◌, ◌-◌, ◌≤◌, ◌<◌, min, ◌≡◌, refl, sym, ap, subst, ◌∙◌, Bool, true, false, ◌&&◌,
  ◌||◌, ltb, leb, ◌==◌, if◌then◌else◌, inl, inr, Bool-cases, arith,
}
use flight_software.Codec.Memory.{Byte, bit_at}
use flight_software.Codec.Bitstream.{
  Bitstream, has_next, position, nonzero, next, next_rounds, next_bits,
}
use flight_software.Codec.Reading.{
  IsPlaced, available, advance, advance-IsPlaced, next_count, next-advance, next_bit,
}
use flight_software.Codec.Sequence.{
  position-advance, advance-advance, advance_zero, available-advance, nothing_left,
}

-- Only the lowest bit is used.
IsFlag : Byte → Type 0
IsFlag u8 = (j : ℕ) → 0 < j → u8 j ≡ false

or_false : (b : Bool) → (b || false || false || false || false || false || false || false) ≡ b
or_false true = refl
or_false false = refl

nonzero_lem : (u8 : Byte) → IsFlag u8 → nonzero u8 ≡ u8 0
unfolding IsFlag
nonzero_lem u8 h =
    rw
      (
        h 1 (omega arith),
        h 2 (omega arith),
        h 3 (omega arith),
        h 4 (omega arith),
        h 5 (omega arith),
        h 6 (omega arith),
        h 7 (omega arith),
      )
      (or_false (u8 0))

next_rounds-none :
    (i : ℕ) (u8 : Byte) (arr : ℕ → Bool) (bs : Bitstream) → next_rounds 0 i u8 arr bs ≡ (i, arr, bs)
unfolding next_rounds
next_rounds-none i u8 arr bs = refl

next_rounds-done :
    (n i : ℕ) (u8 : Byte) (arr : ℕ → Bool) (bs : Bitstream)
    → has_next bs ≡ false
    → next_rounds n i u8 arr bs ≡ (i, arr, bs)
unfolding next_rounds
next_rounds-done zero i u8 arr bs done = refl
next_rounds-done (suc n) i u8 arr bs done = rw (done, next_rounds) refl

-- A round reads one bit.
next_rounds-more :
    (n i : ℕ) (u8 : Byte) (arr : ℕ → Bool) (bs : Bitstream)
    → IsPlaced bs
    → has_next bs ≡ true
    → next_rounds (suc n) i u8 arr bs
      ≡ next_rounds n
          (i + 1)
          (next 1 u8 bs).1
          (λ p. if p == i then nonzero (next 1 u8 bs).1 else arr p)
          (advance 1 bs)
unfolding next_rounds
next_rounds-more n i u8 arr bs h more =
    rw (more, one, next_rounds)
      (ap
        (next_rounds n (i + 1) (next 1 u8 bs).1
          (λ p. if p == i then nonzero (next 1 u8 bs).1 else arr p))
        moved)
  where
    some_left : min 1 (available bs) ≡ 1
    some_left = ground (arith, h.offset_bound)

    one : ((next 1 u8 bs).0 == 0) ≡ false
    one = ground (arith, next_count 1 u8 bs h more (omega arith), some_left)

    moved : (next 1 u8 bs).2 ≡ advance 1 bs
    moved = next-advance 1 u8 bs h more (omega arith) ∙ ap (λ k. advance k bs) some_left

advance_one-IsPlaced :
    (bs : Bitstream)
    → IsPlaced bs
    → has_next bs ≡ true
    → (1 ≤ available bs) × IsPlaced (advance 1 bs)
advance_one-IsPlaced bs h more = (left, advance-IsPlaced 1 bs h left)
  where
    left : 1 ≤ available bs
    left = ground (arith, h.offset_bound)

pub next_rounds-advance :
    (n i : ℕ) (u8 : Byte) (arr : ℕ → Bool) (bs : Bitstream)
    → IsPlaced bs
    → ((next_rounds n i u8 arr bs).0 ≡ i + min n (available bs))
      × ((next_rounds n i u8 arr bs).2 ≡ advance (min n (available bs)) bs)
next_rounds-advance zero i u8 arr bs h =
    subst (λ r. (r.0 ≡ i + min 0 (available bs)) × (r.2 ≡ advance (min 0 (available bs)) bs))
      (sym (next_rounds-none i u8 arr bs))
      (omega arith, sym (advance_zero bs h) ∙ ap (λ k. advance k bs) (omega arith))
next_rounds-advance (suc n) i u8 arr bs h = elim (Bool-cases (has_next bs)) [
  | inl more ↦
      let placed = advance_one-IsPlaced bs h more in
      let rest =
        next_rounds-advance n (i + 1) (next 1 u8 bs).1
          (λ p. if p == i then nonzero (next 1 u8 bs).1 else arr p) (advance 1 bs) placed.1 in
      subst
        (λ r.
          (r.0 ≡ i + min (suc n) (available bs)) × (r.2 ≡ advance (min (suc n) (available bs)) bs))
        (sym (next_rounds-more n i u8 arr bs h more))
        (
          rest.0 ∙ omega (arith, placed.0, available-advance 1 bs),
          rest.1
              ∙ advance-advance (min n (available (advance 1 bs))) 1 bs
              ∙ ap (λ k. advance k bs) (omega (arith, placed.0, available-advance 1 bs)),
        )
  | inr done ↦
      subst
        (λ r.
          (r.0 ≡ i + min (suc n) (available bs)) × (r.2 ≡ advance (min (suc n) (available bs)) bs))
        (sym (next_rounds-done (suc n) i u8 arr bs done))
        (
          omega (arith, nothing_left bs h done),
          sym (advance_zero bs h) ∙ ap (λ k. advance k bs) (omega (arith, nothing_left bs h done)),
        )
]

-- A flag stays one, and holds the bit that was read.
IsFlag-next :
    (u8 : Byte) (bs : Bitstream)
    → IsPlaced bs
    → has_next bs ≡ true
    → IsFlag u8
    → IsFlag (next 1 u8 bs).1 × (nonzero (next 1 u8 bs).1 ≡ bit_at bs.stream (position bs))
unfolding IsFlag
IsFlag-next u8 bs h more flag = (still, nonzero_lem (next 1 u8 bs).1 still ∙ bit)
  where
    still : (j : ℕ) → 0 < j → (next 1 u8 bs).1 j ≡ false
    still j lt = next_bit 1 u8 bs j h more (omega arith) ∙ ground (arith, flag j lt)

    here : ltb 0 (min 1 (available bs)) ≡ true
    here = ground (arith, h.offset_bound)

    bit : (next 1 u8 bs).1 0 ≡ bit_at bs.stream (position bs)
    bit = next_bit 1 u8 bs 0 h more (omega arith) ∙ rw here (ap (bit_at bs.stream) (omega arith))

next_rounds_bit :
    (n i : ℕ) (u8 : Byte) (arr : ℕ → Bool) (bs : Bitstream) (p : ℕ)
    → IsPlaced bs
    → IsFlag u8
    → (next_rounds n i u8 arr bs).1 p ≡ (
        if leb i p && ltb p (i + min n (available bs))
        then bit_at bs.stream (position bs + (p - i))
        else arr p)
next_rounds_bit zero i u8 arr bs p h flag =
    ap (λ r. r.1 p) (next_rounds-none i u8 arr bs) ∙ ground arith
next_rounds_bit (suc n) i u8 arr bs p h flag = elim (Bool-cases (has_next bs)) [
  | inl more ↦
      let placed = advance_one-IsPlaced bs h more in
      let read = IsFlag-next u8 bs h more flag in
      ap (λ r. r.1 p) (next_rounds-more n i u8 arr bs h more)
      ∙ next_rounds_bit n (i + 1) (next 1 u8 bs).1
          (λ p. if p == i then nonzero (next 1 u8 bs).1 else arr p) (advance 1 bs) p placed.1 read.0
      ∙ joined (bit_at bs.stream) arr n i (position bs) (available bs) p (position (advance 1 bs))
          (available (advance 1 bs)) (nonzero (next 1 u8 bs).1) (position-advance 1 bs)
          (available-advance 1 bs) placed.0 read.1
  | inr done ↦
      ap (λ r. r.1 p) (next_rounds-done (suc n) i u8 arr bs done)
      ∙ ground (arith, nothing_left bs h done)
]
  where
    joined :
        (f arr : ℕ → Bool) (n i q a p q' a' : ℕ) (b : Bool)
        → q' ≡ q + 1
        → a' ≡ a - 1
        → 1 ≤ a
        → b ≡ f q
        → (if leb (i + 1) p && ltb p (i + 1 + min n a')
            then f (q' + (p - (i + 1)))
            else if p == i
            then b
            else arr p)
          ≡ (if leb i p && ltb p (i + min (suc n) a) then f (q + (p - i)) else arr p)
    joined f arr n i q a p q' a' b eq eq' le e = ground arith

-- The bits that `next_bits` reads.
pub next_bits_bit :
    (n size : ℕ) (arr : ℕ → Bool) (bs : Bitstream) (p : ℕ)
    → IsPlaced bs
    → n ≤ size
    → (next_bits n size arr bs).1 p ≡ (
        if ltb p (min n (available bs))
        then bit_at bs.stream (position bs + p)
        else if ltb p size
        then false
        else arr p)
unfolding next_bits IsFlag
next_bits_bit n size arr bs p h le = ground (
  arith,
  next_rounds_bit n 0 (λ i. false) (λ i. if ltb i size then false else arr i) bs p h (λ j lt. refl),
)

pub next_bits-advance :
    (n size : ℕ) (arr : ℕ → Bool) (bs : Bitstream)
    → IsPlaced bs
    → n ≤ size
    → ((next_bits n size arr bs).0 ≡ min n (available bs))
      × ((next_bits n size arr bs).2 ≡ advance (min n (available bs)) bs)
unfolding next_bits
next_bits-advance n size arr bs h le = rw (fits, next_bits) (rest.0 ∙ omega arith, rest.1)
  where
    rest :
        ((next_rounds n 0 (λ i. false) (λ i. if ltb i size then false else arr i) bs).0
          ≡ 0 + min n (available bs))
        × ((next_rounds n 0 (λ i. false) (λ i. if ltb i size then false else arr i) bs).2
            ≡ advance (min n (available bs)) bs)
    rest = next_rounds-advance n 0 (λ i. false) (λ i. if ltb i size then false else arr i) bs h

    fits : ltb size n ≡ false
    fits = ground arith
