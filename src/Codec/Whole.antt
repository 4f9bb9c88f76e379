-- ===== src/Codec/Whole.antt =====
-- `nextN` of common/bitstream.cpp into bytes: the whole bytes, then the bits of a last one.
use flight_software.Base.{
  ℕ, ◌+◌, ◌-◌, ◌*◌, ◌/◌, ◌%◌, ◌≤◌, min, ◌≡◌, refl, sym, ap, subst, ◌∙◌, Bool, true, false, not,
  ◌&&◌, ltb, ◌==◌, if◌then◌else◌, inl, inr, Bool-cases, arith,
}
use flight_software.Codec.Memory.{Byte, Memory, bit_at, set_byte, clear_bytes}
use flight_software.Codec.Bitstream.{Bitstream, has_next, position, next, next_bytes, next_n}
use flight_software.Codec.Reading.{
  IsPlaced, available, advance, advance-IsPlaced, next_count, next-advance, next_bit, bit_at-place,
}
use flight_software.Codec.Sequence.{
  advance-advance, next_bytes_count, next_bytes-advance, next_bytes_bit,
}

-- The whole bytes of `nextN`.
abbrev whole : ℕ → Memory → Bitstream → ℕ × Memory × Bitstream
whole n res bs = next_bytes (n / 8) 0 0 (clear_bytes res ((n + 7) / 8)) bs

abbrev partial : ℕ → Memory → Bitstream → ℕ × Memory × Bitstream
partial n res bs =
    let r = whole n res bs in
    let s = next (n % 8) (r.1 (n / 8)) r.2 in (r.0 + s.0, set_byte r.1 (n / 8) s.1, s.2)

next_n-whole :
    (n : ℕ) (res : Memory) (bs : Bitstream)
    → (not (n % 8 == 0) && has_next (whole n res bs).2) ≡ false
    → next_n n res bs ≡ whole n res bs
unfolding next_n
next_n-whole n res bs e = rw (e, next_n) refl

next_n-partial :
    (n : ℕ) (res : Memory) (bs : Bitstream)
    → (not (n % 8 == 0) && has_next (whole n res bs).2) ≡ true
    → next_n n res bs ≡ partial n res bs
unfolding next_n
next_n-partial n res bs e = rw (e, next_n) refl

-- Where the whole bytes stop.
whole-advance :
    (n : ℕ) (res : Memory) (bs : Bitstream)
    → IsPlaced bs
    → (whole n res bs).2 ≡ advance (min (8 * (n / 8)) (available bs)) bs
whole-advance n res bs h = next_bytes-advance (n / 8) 0 0 (clear_bytes res ((n + 7) / 8)) bs h

whole-done :
    (n : ℕ) (bs end : Bitstream)
    → IsPlaced bs
    → end ≡ advance (min (8 * (n / 8)) (available bs)) bs
    → (not (n % 8 == 0) && has_next end) ≡ false
    → min (8 * (n / 8)) (available bs) ≡ min n (available bs)
whole-done n bs end h eq done = ground (arith, h.within, fits)
  where
    fits : (not (n % 8 == 0) && has_next (advance (min (8 * (n / 8)) (available bs)) bs)) ≡ false
    fits = subst (λ (b : Bitstream). (not (n % 8 == 0) && has_next b) ≡ false) eq done

-- Where the partial byte is read, when there is one.
record IsRest (n : ℕ) (bs end : Bitstream) : Type 0 where
  more : has_next end ≡ true
  placed : IsPlaced end
  left : available end ≡ available bs - 8 * (n / 8)
  enough : 8 * (n / 8) ≤ available bs
  place : position end ≡ position bs + 8 * (n / 8)
  same : end.stream ≡ bs.stream

advance-IsRest :
    (n k : ℕ) (bs : Bitstream)
    → IsPlaced bs
    → k ≡ min (8 * (n / 8)) (available bs)
    → (not (n % 8 == 0) && has_next (advance k bs)) ≡ true
    → IsRest n bs (advance k bs)
advance-IsRest n k bs h eq more = record {
  more = ground arith;
  placed = advance-IsPlaced k bs h (omega (arith, eq));
  left = ground (arith, h.within);
  enough = ground (arith, h.within);
  place = ground (arith, h.within);
  same = refl;
}

whole-IsRest :
    (n : ℕ) (res : Memory) (bs : Bitstream)
    → IsPlaced bs
    → (not (n % 8 == 0) && has_next (whole n res bs).2) ≡ true
    → IsRest n bs (whole n res bs).2
whole-IsRest n res bs h more = subst (IsRest n bs) (sym (whole-advance n res bs h)) (
    advance-IsRest n (min (8 * (n / 8)) (available bs)) bs h refl (
      subst (λ (b : Bitstream). (not (n % 8 == 0) && has_next b) ≡ true) (whole-advance n res bs h)
        more))

-- The bits after the partial byte, from the bits `f` of the stream.
partial_bit :
    (f : ℕ → Bool) (m res : Memory) (u8 : Byte) (n q a p q' a' : ℕ)
    → q' ≡ q + 8 * (n / 8)
    → a' ≡ a - 8 * (n / 8)
    → 8 * (n / 8) ≤ a
    → bit_at m p ≡ (if ltb p (min (8 * (n / 8)) a) then f (q + p) else bit_at res p)
    → (p / 8 ≡ n / 8
        → u8 (p % 8) ≡ (if ltb (p % 8) (min (n % 8) a') then f (q' + p % 8) else bit_at m p))
    → bit_at (set_byte m (n / 8) u8) p ≡ (if ltb p (min n a) then f (q + p) else bit_at res p)
partial_bit f m res u8 n q a p q' a' eq eq' le before byte = ground arith

whole_count :
    (n : ℕ) (res : Memory) (bs : Bitstream)
    → IsPlaced bs
    → (whole n res bs).0 ≡ min (8 * (n / 8)) (available bs)
whole_count n res bs h =
    next_bytes_count (n / 8) 0 0 (clear_bytes res ((n + 7) / 8)) bs h ∙ omega arith

whole_bit :
    (n : ℕ) (res : Memory) (bs : Bitstream) (p : ℕ)
    → IsPlaced bs
    → bit_at (whole n res bs).1 p ≡ (
        if ltb p (min (8 * (n / 8)) (available bs))
        then bit_at bs.stream (position bs + p)
        else bit_at (clear_bytes res ((n + 7) / 8)) p)
whole_bit n res bs p h =
    next_bytes_bit (n / 8) 0 0 (clear_bytes res ((n + 7) / 8)) bs p h ∙ ground arith

pub next_n_count :
    (n : ℕ) (res : Memory) (bs : Bitstream)
    → IsPlaced bs
    → (next_n n res bs).0 ≡ min n (available bs)
next_n_count n res bs h = elim (Bool-cases (not (n % 8 == 0) && has_next (whole n res bs).2)) [
  | inl more ↦ counted more (whole-IsRest n res bs h more)
  | inr done ↦
      ap (λ r. r.0) (next_n-whole n res bs done)
      ∙ whole_count n res bs h
      ∙ whole-done n bs (whole n res bs).2 h (whole-advance n res bs h) done
]
  where
    counted :
        (not (n % 8 == 0) && has_next (whole n res bs).2) ≡ true
        → IsRest n bs (whole n res bs).2
        → (next_n n res bs).0 ≡ min n (available bs)
    counted more rest =
        ap (λ r. r.0) (next_n-partial n res bs more)
        ∙ omega (
          arith,
          whole_count n res bs h,
          next_count (n % 8) ((whole n res bs).1 (n / 8)) (whole n res bs).2 rest.placed rest.more
              (omega arith),
          rest.left,
          rest.enough,
        )

pub next_n-advance :
    (n : ℕ) (res : Memory) (bs : Bitstream)
    → IsPlaced bs
    → (next_n n res bs).2 ≡ advance (min n (available bs)) bs
next_n-advance n res bs h = elim (Bool-cases (not (n % 8 == 0) && has_next (whole n res bs).2)) [
  | inl more ↦ moved more (whole-IsRest n res bs h more)
  | inr done ↦
      ap (λ r. r.2) (next_n-whole n res bs done)
      ∙ whole-advance n res bs h
      ∙ ap (λ k. advance k bs)
          (whole-done n bs (whole n res bs).2 h (whole-advance n res bs h) done)
]
  where
    moved :
        (not (n % 8 == 0) && has_next (whole n res bs).2) ≡ true
        → IsRest n bs (whole n res bs).2
        → (next_n n res bs).2 ≡ advance (min n (available bs)) bs
    moved more rest =
        ap (λ r. r.2) (next_n-partial n res bs more)
        ∙ next-advance (n % 8) ((whole n res bs).1 (n / 8)) (whole n res bs).2 rest.placed rest.more
            (omega arith)
        ∙ ap (λ b. advance (min (n % 8) (available (whole n res bs).2)) b)
            (whole-advance n res bs h)
        ∙ advance-advance (min (n % 8) (available (whole n res bs).2))
            (min (8 * (n / 8)) (available bs)) bs
        ∙ ap (λ k. advance k bs) (omega (arith, rest.left, rest.enough))

-- next_n copies bits as from one sequence: the bits of the result are those of the stream from the
-- place on, as many as asked for and left; the rest of the bytes asked for is cleared, and the
-- memory behind them unchanged.
pub next_n_bit :
    (n : ℕ) (res : Memory) (bs : Bitstream) (p : ℕ)
    → IsPlaced bs
    → bit_at (next_n n res bs).1 p ≡ (
        if ltb p (min n (available bs))
        then bit_at bs.stream (position bs + p)
        else bit_at (clear_bytes res ((n + 7) / 8)) p)
next_n_bit n res bs p h = elim (Bool-cases (not (n % 8 == 0) && has_next (whole n res bs).2)) [
  | inl more ↦ copied more (whole-IsRest n res bs h more)
  | inr done ↦
      ap (λ r. bit_at r.1 p) (next_n-whole n res bs done)
      ∙ whole_bit n res bs p h
      ∙ ap
          (λ k.
            if ltb p k
            then bit_at bs.stream (position bs + p)
            else bit_at (clear_bytes res ((n + 7) / 8)) p)
          (whole-done n bs (whole n res bs).2 h (whole-advance n res bs h) done)
]
  where
    copied :
        (not (n % 8 == 0) && has_next (whole n res bs).2) ≡ true
        → IsRest n bs (whole n res bs).2
        → bit_at (next_n n res bs).1 p ≡ (
            if ltb p (min n (available bs))
            then bit_at bs.stream (position bs + p)
            else bit_at (clear_bytes res ((n + 7) / 8)) p)
    copied more rest =
        ap (λ r. bit_at r.1 p) (next_n-partial n res bs more)
        ∙ partial_bit (bit_at bs.stream) (whole n res bs).1 (clear_bytes res ((n + 7) / 8))
            (next (n % 8) ((whole n res bs).1 (n / 8)) (whole n res bs).2).1 n (position bs)
            (available bs) p (position (whole n res bs).2) (available (whole n res bs).2) rest.place
            rest.left rest.enough (whole_bit n res bs p h) from_byte
      where
        from_byte :
            p / 8 ≡ n / 8
            → (next (n % 8) ((whole n res bs).1 (n / 8)) (whole n res bs).2).1 (p % 8) ≡ (
                if ltb (p % 8) (min (n % 8) (available (whole n res bs).2))
                then bit_at bs.stream (position (whole n res bs).2 + p % 8)
                else bit_at (whole n res bs).1 p)
        from_byte here =
            next_bit (n % 8) ((whole n res bs).1 (n / 8)) (whole n res bs).2 (p % 8) rest.placed
              rest.more (omega arith)
            ∙ ap
                (λ (m : Memory).
                  if ltb (p % 8) (min (n % 8) (available (whole n res bs).2))
                  then bit_at m (position (whole n res bs).2 + p % 8)
                  else (whole n res bs).1 (n / 8) (p % 8))
                rest.same
            ∙ ap
                (λ b.
                  if ltb (p % 8) (min (n % 8) (available (whole n res bs).2))
                  then bit_at bs.stream (position (whole n res bs).2 + p % 8)
                  else b)
                (sym
                  (bit_at-place (whole n res bs).1 (n / 8) (p % 8) p (omega arith) (omega arith)))
