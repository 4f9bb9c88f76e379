-- ===== src/Codec/RoundTrip.antt =====
-- `editN` and `peekN` of common/bitstream.cpp, and reading back what was written.
use flight_software.Base.{
  ℕ, zero, suc, ◌+◌, ◌-◌, ◌*◌, ◌/◌, ◌%◌, ◌≤◌, ◌<◌, min, ◌≡◌, refl, sym, ap, subst, ◌∙◌, Bool, true,
  false, ◌⊎◌, ◌&&◌, ltb, leb, ◌==◌, if◌then◌else◌, inl, inr, arith,
}
use flight_software.Codec.Memory.{Memory, bit_at, clear_bytes}
use flight_software.Codec.Bitstream.{
  Bitstream, Direction, position, move_to, seek_g, edit, edit_bytes, edit_n, next_n, peek_n,
}
use flight_software.Codec.Reading.{IsPlaced, available, advance, advance-IsPlaced, bit_at-place}
use flight_software.Codec.Sequence.{advance_zero}
use flight_software.Codec.Whole.{next_n_count, next_n-advance, next_n_bit}
use flight_software.Codec.Editing.{
  IsEdited, nothing-IsEdited, edit_lem, edit-IsEdited, append-IsEdited, edit_bytes-IsWritten,
  IsWritten,
}

-- The guard of `editN` does nothing where the bits fit.
abbrev loop : ℕ → Memory → Bitstream → ℕ × Bitstream
loop n val bs = edit_bytes (n / 8) 0 0 val bs

edit_n-whole :
    (n : ℕ) (val : Memory) (bs : Bitstream)
    → n ≤ available bs
    → n % 8 ≡ 0
    → edit_n n val bs ≡ loop n val bs
unfolding edit_n
edit_n-whole n val bs fits e = rw (guard, none, edit_n) refl
  where
    guard : ltb (bs.byte_offset + bs.max_len) (n / 8) ≡ false
    guard = ground arith

    none : (n % 8 == 0) ≡ true
    none = ground arith

edit_n-partial :
    (n : ℕ) (val : Memory) (bs : Bitstream)
    → n ≤ available bs
    → 0 < n % 8
    → edit_n n val bs
      ≡ (let r = loop n val bs in let s = edit (n % 8) (val (n / 8)) r.1 in (r.0 + s.0, s.1))
unfolding edit_n
edit_n-partial n val bs fits e = rw (guard, some_left, edit_n) refl
  where
    guard : ltb (bs.byte_offset + bs.max_len) (n / 8) ≡ false
    guard = ground arith

    some_left : (n % 8 == 0) ≡ false
    some_left = ground arith

zero_or_more : (n : ℕ) → (n ≡ 0) ⊎ (0 < n)
zero_or_more zero = inl refl
zero_or_more (suc n) = inr (omega arith)

edit_n-IsEdited :
    (n : ℕ) (val : Memory) (bs : Bitstream)
    → IsPlaced bs
    → n ≤ available bs
    → ((edit_n n val bs).0 ≡ n) × IsEdited n (bit_at val) bs (edit_n n val bs).1
edit_n-IsEdited n val bs h fits = elim (zero_or_more (n % 8)) [
  | inl e ↦
      subst (λ r. (r.0 ≡ n) × IsEdited n (bit_at val) bs r.1) (sym (edit_n-whole n val bs fits e))
        (
          before.0 ∙ omega (arith, e),
          subst (λ k. IsEdited k (bit_at val) bs (loop n val bs).1) (all e) before_bits,
        )
  | inr part ↦
      subst (λ r. (r.0 ≡ n) × IsEdited n (bit_at val) bs r.1)
        (sym (edit_n-partial n val bs fits part))
        (
          omega (arith, before.0, counted),
          append-IsEdited (8 * (n / 8)) (n % 8) n (bit_at val) (val (n / 8)) (bit_at val) bs
              (loop n val bs).1 (edit (n % 8) (val (n / 8)) (loop n val bs).1).1 (omega arith)
              (λ j lt. refl)
              (λ j lt. bit_at-place val (n / 8) j (8 * (n / 8) + j) (omega (arith, lt)) refl)
              before_bits
              (edit-IsEdited (n % 8) (val (n / 8)) (loop n val bs).1 before.1.placed (omega arith)
                left),
        )
]
  where
    before : IsWritten (n / 8) 0 0 val bs (loop n val bs)
    before = edit_bytes-IsWritten (n / 8) 0 0 val bs h (omega (arith, fits))

    before_bits : IsEdited (8 * (n / 8)) (bit_at val) bs (loop n val bs).1
    before_bits =
        append-IsEdited (8 * (n / 8)) 0 (8 * (n / 8)) (λ j. bit_at val (8 * 0 + j)) (bit_at val)
          (bit_at val) bs (loop n val bs).1 (loop n val bs).1 (omega arith)
          (λ j lt. ap (bit_at val) (omega arith)) (λ j lt. absurd (omega (arith, lt))) before.1
          (nothing-IsEdited (bit_at val) (loop n val bs).1 before.1.placed)

    all : n % 8 ≡ 0 → 8 * (n / 8) ≡ n
    all e = omega arith

    left : n % 8 ≤ available (loop n val bs).1
    left = omega (arith, fits, before.1.place, before.1.size)

    counted : (edit (n % 8) (val (n / 8)) (loop n val bs).1).0 ≡ n % 8
    counted =
        ap (λ r. r.0)
          (edit_lem (n % 8) (val (n / 8)) (loop n val bs).1 before.1.placed (omega arith) left)

-- Where n bits are left, edit_n replaces the n bits from the place on by the first n bits of the
-- value and changes no other bit of the memory.
pub edit_n_bit :
    (n : ℕ) (val : Memory) (bs : Bitstream) (q : ℕ)
    → IsPlaced bs
    → n ≤ available bs
    → bit_at (edit_n n val bs).1.stream q ≡ (
        if leb (position bs) q && ltb q (position bs + n)
        then bit_at val (q - position bs)
        else bit_at bs.stream q)
edit_n_bit n val bs q h fits = (edit_n-IsEdited n val bs h fits).1.bits q

-- Going back to a place that the stream came from.
seek_g_back :
    (k : ℕ) (bs : Bitstream)
    → IsPlaced bs
    → k ≤ position bs
    → seek_g k Direction.bs_beg bs ≡ (k, move_to (position bs - k) bs)
unfolding seek_g
seek_g_back k bs h le = ground (arith, h.within)

return_lem :
    (k : ℕ) (bs : Bitstream)
    → IsPlaced bs
    → k ≤ available bs
    → (seek_g k Direction.bs_beg (advance k bs)).1 ≡ bs
return_lem k bs h le =
    ap (λ r. r.1) (seek_g_back k (advance k bs) (advance-IsPlaced k bs h le) (omega arith))
    ∙ ap (λ p. move_to p bs) (omega arith)
    ∙ advance_zero bs h

-- peek_n leaves the stream as it was.
pub peek_n_same : (n : ℕ) (res : Memory) (bs : Bitstream) → IsPlaced bs → (peek_n n res bs).2 ≡ bs
unfolding peek_n
peek_n_same n res bs h =
    ap (λ k. (seek_g k Direction.bs_beg (next_n n res bs).2).1) (next_n_count n res bs h)
    ∙ ap (λ b. (seek_g (min n (available bs)) Direction.bs_beg b).1) (next_n-advance n res bs h)
    ∙ return_lem (min n (available bs)) bs h (omega arith)

read_back :
    (n : ℕ) (val res : Memory) (bs end : Bitstream) (p : ℕ)
    → IsPlaced bs
    → n ≤ available bs
    → p < n
    → IsEdited n (bit_at val) bs end
    → bit_at (next_n n res (move_to (position end - n) end)).1 p ≡ bit_at val p
read_back n val res bs end p h fits lt edited =
    next_n_bit n res start p placed
    ∙ found (bit_at start.stream (position start + p)) (bit_at (clear_bytes res ((n + 7) / 8)) p)
        (edited.bits (position start + p))
  where
    start : Bitstream
    start = move_to (position end - n) end

    here : position start ≡ position bs
    here = omega (arith, edited.place)

    placed : IsPlaced start
    placed = record {
      offset_bound = omega arith;
      within = omega (arith, edited.place, h.within, edited.size);
    }

    found :
        (x y : Bool)
        → x ≡ (
            if leb (position bs) (position start + p) && ltb (position start + p) (position bs + n)
            then bit_at val (position start + p - position bs)
            else bit_at bs.stream (position start + p))
        → (if ltb p (min n (available start)) then x else y) ≡ bit_at val p
    found x y e = rw all (e ∙ rw inside (ap (bit_at val) same))
      where
        same : position start + p - position bs ≡ p
        same = omega (arith, here)

        inside :
            (leb (position bs) (position start + p) && ltb (position start + p) (position bs + n))
            ≡ true
        inside = ground (arith, here, lt)

        all : ltb p (min n (available start)) ≡ true
        all = ground (arith, here, lt, fits, edited.size)

-- What edit_n writes, next_n reads: where n bits are left in the stream, writing n bits, going back
-- by as many and reading n bits gives each of the bits written.
pub next_n-edit_n :
    (n : ℕ) (val res : Memory) (bs : Bitstream) (p : ℕ)
    → IsPlaced bs
    → n ≤ available bs
    → p < n
    → bit_at (next_n n res (seek_g (edit_n n val bs).0 Direction.bs_beg (edit_n n val bs).1).1).1 p
      ≡ bit_at val p
next_n-edit_n n val res bs p h fits lt =
    ap (λ k. bit_at (next_n n res (seek_g k Direction.bs_beg (edit_n n val bs).1).1).1 p) edited.0
    ∙ ap (λ r. bit_at (next_n n res r.1).1 p)
        (seek_g_back n (edit_n n val bs).1 edited.1.placed (omega (arith, edited.1.place)))
    ∙ read_back n val res bs (edit_n n val bs).1 p h fits lt edited.1
  where
    edited : ((edit_n n val bs).0 ≡ n) × IsEdited n (bit_at val) bs (edit_n n val bs).1
    edited = edit_n-IsEdited n val bs h fits
