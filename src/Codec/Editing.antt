-- ===== src/Codec/Editing.antt =====
-- What the writing operations of common/bitstream.cpp do to the flat sequence of bits, where the bits
-- fit in the rest of the buffer.
use flight_software.Base.{
  ℕ, zero, suc, ◌+◌, ◌-◌, ◌*◌, ◌/◌, ◌%◌, ◌≤◌, ◌<◌, ◌≡◌, refl, sym, ap, subst, ◌∙◌, Bool, true,
  false, ◌&&◌, ltb, leb, if◌then◌else◌, inl, inr, Bool-cases, arith,
}
use flight_software.Codec.Memory.{Byte, Memory, bit_at, set_byte, shift_right, modify_bit}
use flight_software.Codec.Bitstream.{
  Bitstream, Direction, position, seek_g, first_rounds, second_rounds, write_bits, edit, edit_bytes,
}
use flight_software.Codec.Reading.{IsPlaced, available, advance, seek_g_forward, bit_at-place}

write_bits_lem :
    (n i : ℕ) (u8 old : Byte) (j : ℕ)
    → write_bits n i u8 old j ≡ (if leb i j && ltb j (i + n) then u8 (j - i) else old j)
unfolding write_bits
write_bits_lem zero i u8 old j = ground arith
write_bits_lem (suc n) i u8 old j =
    ground (arith, write_bits_lem n (i + 1) (shift_right u8 1) (modify_bit old i (u8 0)) j)

-- The stream that `edit` leaves.
abbrev written : ℕ → Byte → Bitstream → Memory
written n val bs =
    let first = first_rounds n bs in
    let m =
      set_byte bs.stream bs.byte_offset
        (write_bits first bs.bit_offset val (bs.stream bs.byte_offset)) in
    if ltb (bs.byte_offset + 1) bs.max_len && ltb first n
    then set_byte m (bs.byte_offset + 1)
        (write_bits (second_rounds n bs) 0 (shift_right val first) (m (bs.byte_offset + 1)))
    else m

rounds-fit :
    (n : ℕ) (bs : Bitstream)
    → IsPlaced bs
    → n ≤ 8
    → n ≤ available bs
    → first_rounds n bs + second_rounds n bs ≡ n
rounds-fit n bs h le fits = ground (arith, h.within, h.offset_bound)

pub edit_lem :
    (n : ℕ) (val : Byte) (bs : Bitstream)
    → IsPlaced bs
    → n ≤ 8
    → n ≤ available bs
    → edit n val bs ≡ (n, advance n (record bs { stream = written n val bs }))
unfolding edit
edit_lem n val bs h le fits =
    ap (λ k. (k, (seek_g k Direction.bs_end (record bs { stream = written n val bs })).1))
      (rounds-fit n bs h le fits)
    ∙ ap (λ r. (n, r.1)) (seek_g_forward n (record bs { stream = written n val bs }) placed fits)
  where
    placed : IsPlaced (record bs { stream = written n val bs })
    placed = record { offset_bound = h.offset_bound; within = h.within }

-- The bits of `val` that go to the first byte.
first_bit :
    (m : Memory) (val : Byte) (a b o q : ℕ)
    → o < 8
    → a + o ≤ 8
    → bit_at (set_byte m b (write_bits a o val (m b))) q
      ≡ (if leb (8 * b + o) q && ltb q (8 * b + o + a) then val (q - (8 * b + o)) else bit_at m q)
first_bit m val a b o q h le = split (write_bits a o val (m b)) (λ here.
    write_bits_lem a o val (m b) (q % 8)
    ∙ ap (λ x. if leb o (q % 8) && ltb (q % 8) (o + a) then val (q % 8 - o) else x)
        (sym (bit_at-place m b (q % 8) q (omega arith) (omega arith))))
  where
    split :
        (u8 : Byte)
        → (q / 8 ≡ b
            → u8 (q % 8)
              ≡ (if leb o (q % 8) && ltb (q % 8) (o + a) then val (q % 8 - o) else bit_at m q))
        → bit_at (set_byte m b u8) q ≡ (
            if leb (8 * b + o) q && ltb q (8 * b + o + a)
            then val (q - (8 * b + o))
            else bit_at m q)
    split u8 byte = ground arith

-- The bits of `val` are those from the place on.
pub written_bit :
    (n : ℕ) (val : Byte) (bs : Bitstream) (q : ℕ)
    → IsPlaced bs
    → n ≤ 8
    → n ≤ available bs
    → bit_at (written n val bs) q ≡ (
        if leb (position bs) q && ltb q (position bs + n)
        then val (q - position bs)
        else bit_at bs.stream q)
written_bit n val bs q h le fits =
    elim (Bool-cases (ltb (bs.byte_offset + 1) bs.max_len && ltb (first_rounds n bs) n)) [
      | inl more ↦
          ap (λ (m : Memory). bit_at m q) (two more)
          ∙ first_bit (one_byte) (shift_right val (first_rounds n bs)) (second_rounds n bs)
              (bs.byte_offset + 1) 0 q (omega arith) (ground (arith, h.offset_bound))
          ∙ both (second_rounds n bs) (first_rounds n bs) (rounds-fit n bs h le fits) (ground arith)
              (bit_at one_byte q)
              (first_bit bs.stream val (first_rounds n bs) bs.byte_offset bs.bit_offset q
                h.offset_bound (omega (arith, h.offset_bound)))
      | inr single ↦
          ap (λ (m : Memory). bit_at m q) (one single)
          ∙ first_bit bs.stream val (first_rounds n bs) bs.byte_offset bs.bit_offset q
              h.offset_bound (omega (arith, h.offset_bound))
          ∙ ap
              (λ k.
                if leb (position bs) q && ltb q (position bs + k)
                then val (q - position bs)
                else bit_at bs.stream q)
              (ground (arith, rounds-fit n bs h le fits))
    ]
  where
    one_byte : Memory
    one_byte =
        set_byte bs.stream bs.byte_offset
          (write_bits (first_rounds n bs) bs.bit_offset val (bs.stream bs.byte_offset))

    one :
        (ltb (bs.byte_offset + 1) bs.max_len && ltb (first_rounds n bs) n) ≡ false
        → written n val bs ≡ one_byte
    one single = rw single refl

    two :
        (ltb (bs.byte_offset + 1) bs.max_len && ltb (first_rounds n bs) n) ≡ true
        → written n val bs
          ≡ set_byte one_byte (bs.byte_offset + 1) (
              write_bits
                (second_rounds n bs)
                0
                (shift_right val (first_rounds n bs))
                (one_byte (bs.byte_offset + 1)))
    two more = rw more refl

    both :
        (c a : ℕ)
        → a + c ≡ n
        → a ≡ 8 - bs.bit_offset
        → (x : Bool)
        → x ≡ (
            if leb (position bs) q && ltb q (position bs + a)
            then val (q - position bs)
            else bit_at bs.stream q)
        → (if leb (8 * (bs.byte_offset + 1) + 0) q && ltb q (8 * (bs.byte_offset + 1) + 0 + c)
            then val (q - (8 * (bs.byte_offset + 1) + 0) + a)
            else x)
          ≡ (if leb (position bs) q && ltb q (position bs + n)
              then val (q - position bs)
              else bit_at bs.stream q)
    both c a total all x eq = ground (arith, h.offset_bound)

-- The stream of `end` is that of `bs` with the `n` bits from the place on replaced by those of `v`.
pub record IsEdited (n : ℕ) (v : ℕ → Bool) (bs end : Bitstream) : Type 0 where
  pub placed : IsPlaced end
  pub place : position end ≡ position bs + n
  pub size : end.max_len ≡ bs.max_len
  pub bits :
      (q : ℕ)
      → bit_at end.stream q ≡ (
          if leb (position bs) q && ltb q (position bs + n)
          then v (q - position bs)
          else bit_at bs.stream q)

pub edit-IsEdited :
    (n : ℕ) (val : Byte) (bs : Bitstream)
    → IsPlaced bs
    → n ≤ 8
    → n ≤ available bs
    → IsEdited n val bs (edit n val bs).1
edit-IsEdited n val bs h le fits =
    subst (λ r. IsEdited n val bs r.1) (sym (edit_lem n val bs h le fits)) edited
  where
    edited : IsEdited n val bs (advance n (record bs { stream = written n val bs }))
    edited = record {
      placed = record { offset_bound = omega arith; within = omega (arith, h.within) };
      place = omega arith;
      size = refl;
      bits = λ q. written_bit n val bs q h le fits;
    }

pub nothing-IsEdited : (v : ℕ → Bool) (bs : Bitstream) → IsPlaced bs → IsEdited 0 v bs bs
nothing-IsEdited v bs h = record {
  placed = h;
  place = omega arith;
  size = refl;
  bits = λ q. ground arith;
}

-- One edit after another.
pub append-IsEdited :
    (a b n : ℕ) (v w u : ℕ → Bool) (bs mid end : Bitstream)
    → n ≡ a + b
    → ((j : ℕ) → j < a → u j ≡ v j)
    → ((j : ℕ) → j < b → u (a + j) ≡ w j)
    → IsEdited a v bs mid
    → IsEdited b w mid end
    → IsEdited n u bs end
append-IsEdited a b n v w u bs mid end eq left right first second = record {
  placed = second.placed;
  place = omega (arith, first.place, second.place);
  size = second.size ∙ first.size;
  bits = λ q.
      joined q (bit_at end.stream q) (bit_at mid.stream q) (position mid) first.place
        (second.bits q) (first.bits q) (left (q - position bs)) (right (q - (position bs + a)));
}
  where
    joined :
        (q : ℕ) (x y : Bool) (p : ℕ)
        → p ≡ position bs + a
        → x ≡ (if leb p q && ltb q (p + b) then w (q - p) else y)
        → y ≡ (
            if leb (position bs) q && ltb q (position bs + a)
            then v (q - position bs)
            else bit_at bs.stream q)
        → (q - position bs < a → u (q - position bs) ≡ v (q - position bs))
        → (q - (position bs + a) < b → u (a + (q - (position bs + a))) ≡ w (q - (position bs + a)))
        → x ≡ (
            if leb (position bs) q && ltb q (position bs + n)
            then u (q - position bs)
            else bit_at bs.stream q)
    joined q x y p here e e' l r = ground arith

-- What the loop does from byte `i` of `val` on.
abbrev pub IsWritten : ℕ → ℕ → ℕ → Memory → Bitstream → ℕ × Bitstream → Type 0
IsWritten n i w val bs r = (r.0 ≡ w + 8 * n) × IsEdited (8 * n) (λ j. bit_at val (8 * i + j)) bs r.1

edit_byte-IsEdited :
    (val : Memory) (i : ℕ) (bs : Bitstream)
    → IsPlaced bs
    → 8 ≤ available bs
    → ((edit 8 (val i) bs).0 ≡ 8) × IsEdited 8 (val i) bs (edit 8 (val i) bs).1
edit_byte-IsEdited val i bs h fits = (
  ap (λ r. r.0) (edit_lem 8 (val i) bs h (omega arith) fits),
  edit-IsEdited 8 (val i) bs h (omega arith) fits,
)

edit_bytes_round :
    (n i w : ℕ) (val : Memory) (bs mid : Bitstream) (k : ℕ) (r : ℕ × Bitstream)
    → (k ≡ 8) × IsEdited 8 (val i) bs mid
    → IsWritten n (i + 1) (w + k) val mid r
    → IsWritten (suc n) i w val bs r
edit_bytes_round n i w val bs mid k r first rest = (
  rest.0 ∙ omega (arith, first.0),
  append-IsEdited 8 (8 * n) (8 * suc n) (val i) (λ j. bit_at val (8 * (i + 1) + j))
      (λ j. bit_at val (8 * i + j)) bs mid r.1 (omega arith)
      (λ j lt. bit_at-place val i j (8 * i + j) lt refl) (λ j lt. ap (bit_at val) (omega arith))
      first.1 rest.1,
)

pub edit_bytes-IsWritten :
    (n i w : ℕ) (val : Memory) (bs : Bitstream)
    → IsPlaced bs
    → 8 * n ≤ available bs
    → IsWritten n i w val bs (edit_bytes n i w val bs)
unfolding edit_bytes
edit_bytes-IsWritten zero i w val bs h fits =
    (omega arith, nothing-IsEdited (λ j. bit_at val (8 * i + j)) bs h)
edit_bytes-IsWritten (suc n) i w val bs h fits =
    let first = edit_byte-IsEdited val i bs h (omega (arith, fits)) in
    edit_bytes_round n i w val bs (edit 8 (val i) bs).1 (edit 8 (val i) bs).0
      (edit_bytes n (i + 1) (w + (edit 8 (val i) bs).0) val (edit 8 (val i) bs).1) first
      (edit_bytes-IsWritten n (i + 1) (w + (edit 8 (val i) bs).0) val (edit 8 (val i) bs).1
        first.1.placed (omega (arith, fits, first.1.place, first.1.size)))
