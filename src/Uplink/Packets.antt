-- ===== src/Uplink/Packets.antt =====
-- The check of a packet and the update by it, src/fsw/FCCode/UplinkCommon.cpp, run over the packet alike.
use flight_software.Base.{
  ℕ, zero, suc, ◌+◌, ◌-◌, ◌*◌, ◌≤◌, ◌<◌, min, ◌≡◌, refl, sym, ap, subst, ◌∙◌, Bool, true, false,
  not, ◌||◌, ltb, ◌==◌, if◌then◌else◌, inl, inr, Bool-cases, arith, List, [], ◌∷◌, length, Option,
  none, some,
}
use flight_software.Codec.Bitstream.{Bitstream, position, next_n, next_bits}
use flight_software.Codec.Reading.{IsPlaced, available, advance, advance-IsPlaced}
use flight_software.Codec.Whole.{next_n-advance}
use flight_software.Codec.Bits.{next_bits-advance}
use flight_software.Uplink.{
  bytes_of, value_of, get_field_length, Fields, Check, Update, check_field, check_round,
  check_fields, update_round, update_loop, mark,
}

pub get_field_length_bound :
    (registry : List ℕ) (i : ℕ) → ltb i (length registry) ≡ false → get_field_length registry i ≡ 0
unfolding get_field_length
get_field_length_bound [] i h = refl
get_field_length_bound (size ∷ registry) zero h = absurd (ground (arith, h))
get_field_length_bound (size ∷ registry) (suc i) h =
    get_field_length_bound registry i (ground (arith, h))

-- The update does what the check has looked at, in a packet of `len` bytes, of which a round takes bits.
Agrees : ℕ → Check → Update → Type 0
Agrees len (Check.left bs) u = u ≡ Update.finished
Agrees len Check.refused u = u ≡ u
Agrees len (Check.checked i consumed bs) u =
    ((fields : Fields) × u ≡ Update.updated i consumed fields bs)
    × IsPlaced bs
    × (0 < consumed)
    × (bs.max_len ≡ len)

-- The part of an update behind the index.
abbrev update_field : List ℕ → ℕ → Fields → ℕ → Bitstream → Update
update_field registry i fields consumed bs =
    if not (ltb i (length registry))
    then Update.overrun
    else (let field_len = get_field_length registry i in
        let r = next_bits field_len field_len (λ p. false) bs in
        Update.updated i (consumed + r.0) (λ j. if j == i then r.1 else fields j) r.2)

update_field-within :
    (registry : List ℕ) (i : ℕ) (fields : Fields) (k : ℕ) (bs : Bitstream)
    → IsPlaced bs
    → ltb i (length registry) ≡ true
    → get_field_length registry i ≤ available bs
    → (fields' : Fields) × update_field registry i fields k bs
        ≡ Update.updated i
            (k + get_field_length registry i)
            fields'
            (advance (get_field_length registry i) bs)
update_field-within registry i fields k bs h inside fits =
    ((λ j. if j == i then (next_bits len len (λ p. false) bs).1 else fields j), rw inside moved)
  where
    len : ℕ
    len = get_field_length registry i

    read :
        ((next_bits len len (λ p. false) bs).0 ≡ min len (available bs))
        × ((next_bits len len (λ p. false) bs).2 ≡ advance (min len (available bs)) bs)
    read = next_bits-advance len len (λ p. false) bs h (omega arith)

    after : (next_bits len len (λ p. false) bs).2 ≡ advance len bs
    after = read.1 ∙ ap (λ n. advance n bs) (omega (arith, fits))

    moved :
        Update.updated i
          (k + (next_bits len len (λ p. false) bs).0)
          (λ j. if j == i then (next_bits len len (λ p. false) bs).1 else fields j)
          (next_bits len len (λ p. false) bs).2
        ≡ Update.updated i
            (k + len)
            (λ j. if j == i then (next_bits len len (λ p. false) bs).1 else fields j)
            (advance len bs)
    moved =
        ap
          (λ n.
            Update.updated i (k + n)
              (λ j. if j == i then (next_bits len len (λ p. false) bs).1 else fields j)
              (next_bits len len (λ p. false) bs).2)
          (read.0 ∙ omega (arith, fits))
        ∙ ap
            (Update.updated i (k + len)
              (λ j. if j == i then (next_bits len len (λ p. false) bs).1 else fields j))
            after

check_field-beyond :
    (registry : List ℕ) (size i : ℕ) (seen : ℕ → Bool) (k : ℕ) (bs : Bitstream)
    → IsPlaced bs
    → available bs < get_field_length registry i
    → check_field registry size i seen k bs ≡ Check.refused
unfolding check_field
check_field-beyond registry size i seen k bs h beyond = ground (arith, h.within, beyond)

check_field-checked :
    (registry : List ℕ) (size i : ℕ) (seen : ℕ → Bool) (k : ℕ) (bs : Bitstream)
    → IsPlaced bs
    → (get_field_length registry i == 0) ≡ false
    → (seen i || not (k == size)) ≡ false
    → get_field_length registry i ≤ available bs
    → check_field registry size i seen k bs
      ≡ Check.checked i (k + get_field_length registry i) (advance (get_field_length registry i) bs)
unfolding check_field
check_field-checked registry size i seen k bs h sized once fits =
    rw (sized, once, moved, same, check_field) refl
  where
    moved : ltb (8 * bs.max_len) (position bs + get_field_length registry i) ≡ false
    moved = ground (arith, h.within, fits)

    same : (get_field_length registry i == get_field_length registry i) ≡ true
    same = ground arith

sized-within :
    (registry : List ℕ) (i : ℕ)
    → (get_field_length registry i == 0) ≡ false
    → ltb i (length registry) ≡ true
sized-within registry i sized = elim (Bool-cases (ltb i (length registry))) [
  | inl inside ↦ inside
  | inr outside ↦ absurd (ground (arith, sized, get_field_length_bound registry i outside))
]

check_field-Agrees :
    (registry : List ℕ) (size i : ℕ) (seen : ℕ → Bool) (fields : Fields) (k : ℕ) (bs : Bitstream)
    → IsPlaced bs
    → Agrees bs.max_len
        (check_field registry size i seen k bs)
        (update_field registry i fields k bs)
unfolding Agrees check_field
check_field-Agrees registry size i seen fields k bs h =
    elim (Bool-cases (get_field_length registry i == 0)) [
      | inl empty ↦ refused (check_field-empty empty)
      | inr sized ↦ elim (Bool-cases (seen i || not (k == size))) [
        | inl again ↦ refused (check_field-again sized again)
        | inr once ↦ elim (Bool-cases (ltb (available bs) (get_field_length registry i))) [
          | inl beyond ↦
              refused (check_field-beyond registry size i seen k bs h (ground (arith, beyond)))
          | inr fits ↦
              subst (λ c. Agrees bs.max_len c (update_field registry i fields k bs))
                (sym (
                  check_field-checked registry size i seen k bs h sized once
                    (ground (arith, fits))))
                (
                  update_field-within registry i fields k bs h (sized-within registry i sized)
                      (ground (arith, fits)),
                  advance-IsPlaced (get_field_length registry i) bs h (ground (arith, fits)),
                  ground (arith, sized),
                  refl,
                )
        ]
      ]
    ]
  where
    refused :
        check_field registry size i seen k bs ≡ Check.refused
        → Agrees bs.max_len
            (check_field registry size i seen k bs)
            (update_field registry i fields k bs)
    refused e = subst (λ c. Agrees bs.max_len c (update_field registry i fields k bs)) (sym e) refl

    check_field-empty :
        (get_field_length registry i == 0) ≡ true
        → check_field registry size i seen k bs ≡ Check.refused
    check_field-empty empty = rw (empty, check_field) refl

    check_field-again :
        (get_field_length registry i == 0) ≡ false
        → (seen i || not (k == size)) ≡ true
        → check_field registry size i seen k bs ≡ Check.refused
    check_field-again sized again = rw (sized, again, check_field) refl

-- The index that a round reads.
abbrev index : ℕ → ℕ → Bitstream → ℕ
index size i bs = value_of 32 (next_n size (bytes_of i) bs).1

round-Agrees :
    (registry : List ℕ) (size i : ℕ) (seen : ℕ → Bool) (fields : Fields) (bs : Bitstream)
    → IsPlaced bs
    → Agrees bs.max_len
        (check_round registry size i seen bs)
        (update_round registry size i fields bs)
unfolding Agrees check_round update_round
round-Agrees registry size i seen fields bs h = elim (Bool-cases (index size i bs == 0)) [
  | inl end ↦ at_end end
  | inr more ↦
      rw (more, check_round, update_round)
        (subst
          (λ len.
            Agrees len
              (check_field registry size (index size i bs - 1) seen (next_n size (bytes_of i) bs).0
                (next_n size (bytes_of i) bs).2)
              (update_field registry (index size i bs - 1) fields (next_n size (bytes_of i) bs).0
                (next_n size (bytes_of i) bs).2))
          (ap (λ b. b.max_len) (next_n-advance size (bytes_of i) bs h))
          (check_field-Agrees registry size (index size i bs - 1) seen fields
            (next_n size (bytes_of i) bs).0 (next_n size (bytes_of i) bs).2 placed))
]
  where
    placed : IsPlaced (next_n size (bytes_of i) bs).2
    placed =
        subst IsPlaced (sym (next_n-advance size (bytes_of i) bs h))
          (advance-IsPlaced (min size (available bs)) bs h (omega arith))

    at_end :
        (index size i bs == 0) ≡ true
        → Agrees bs.max_len
            (check_round registry size i seen bs)
            (update_round registry size i fields bs)
    at_end end = rw (end, check_round, update_round) refl

-- The rest of the loops after a round.
abbrev after_check : (ℕ → ℕ → Bitstream → Option Bitstream) → Check → Option Bitstream
after_check again c = elim c [
  | Check.left bs' ↦ some bs'
  | Check.refused ↦ none
  | Check.checked i consumed bs' ↦ again i consumed bs'
]

abbrev after_update : (ℕ → ℕ → Fields → Bitstream → Option Fields) → Fields → Update → Option Fields
after_update again fields u = elim u [
  | Update.finished ↦ some fields
  | Update.overrun ↦ none
  | Update.updated i consumed fields' bs' ↦ again i consumed fields' bs'
]

after-agree :
    (again : ℕ → ℕ → Bitstream → Option Bitstream)
    (again' : ℕ → ℕ → Fields → Bitstream → Option Fields) (fields : Fields) (end : Bitstream)
    (c : Check) (u : Update)
    → (len : ℕ) → Agrees len c u
    → ((i k : ℕ) (f : Fields) (bs : Bitstream)
        → IsPlaced bs
        → again i k bs ≡ some end
        → (fields' : Fields) × again' i k f bs ≡ some fields')
    → after_check again c ≡ some end
    → (fields' : Fields) × after_update again' fields u ≡ some fields'
unfolding Agrees
after-agree again again' fields end (Check.left bs) u len agrees rest passed =
    (fields, ap (after_update again' fields) agrees)
after-agree again again' fields end Check.refused u len agrees rest passed =
    absurd (ground (arith, passed))
after-agree again again' fields end (Check.checked i k bs) u len agrees rest passed =
    let r = rest i k agrees.0.0 bs agrees.1 passed in
    (r.0, ap (after_update again' fields) agrees.0.1 ∙ r.1)

-- What the check passes, the update can go through.
pub loops-agree :
    (n : ℕ) (registry : List ℕ) (size i : ℕ) (seen : ℕ → Bool) (consumed : ℕ) (fields : Fields)
    (bs end : Bitstream)
    → IsPlaced bs
    → check_fields n registry size i seen consumed bs ≡ some end
    → (fields' : Fields) × update_loop n registry size i consumed fields bs ≡ some fields'
unfolding check_fields update_loop
loops-agree zero registry size i seen consumed fields bs end h passed = (fields, refl)
loops-agree (suc n) registry size i seen consumed fields bs end h passed =
    elim (Bool-cases (ltb consumed (8 * bs.max_len))) [
      | inl more ↦
          rw (more, update_loop)
            (after-agree (λ j k b. check_fields n registry size j (mark j seen) (consumed + k) b)
              (λ j k f b. update_loop n registry size j (consumed + k) f b) fields end
              (check_round registry size i seen bs) (update_round registry size i fields bs)
              bs.max_len (round-Agrees registry size i seen fields bs h)
              (λ j k f b placed e.
                loops-agree n registry size j (mark j seen) (consumed + k) f b end placed e)
              (rw (more, check_fields) at passed))
      | inr done ↦ (fields, rw (done, update_loop) refl)
    ]

-- What another round of the loop can change.
after-same :
    (again again' : ℕ → ℕ → Bitstream → Option Bitstream) (c : Check) (u : Update) (len : ℕ)
    → Agrees len c u
    → ((i k : ℕ) (bs : Bitstream)
        → IsPlaced bs
        → 0 < k
        → bs.max_len ≡ len
        → again i k bs ≡ again' i k bs)
    → after_check again c ≡ after_check again' c
unfolding Agrees
after-same again again' (Check.left bs) u len agrees rest = refl
after-same again again' Check.refused u len agrees rest = refl
after-same again again' (Check.checked i k bs) u len agrees rest =
    rest i k bs agrees.1 agrees.2 agrees.3

-- The loop of _validate_packet ends by itself: from a well-placed stream, with at least as many
-- rounds as there are bits of the packet not yet counted, a further round changes nothing.
pub check_fields_enough :
    (n : ℕ) (registry : List ℕ) (size i : ℕ) (seen : ℕ → Bool) (consumed : ℕ) (bs : Bitstream)
    → IsPlaced bs
    → 8 * bs.max_len ≤ consumed + n
    → check_fields (suc n) registry size i seen consumed bs
      ≡ check_fields n registry size i seen consumed bs
unfolding check_fields
check_fields_enough zero registry size i seen consumed bs h le = rw (done, check_fields) refl
  where
    done : ltb consumed (8 * bs.max_len) ≡ false
    done = ground (arith, le)
check_fields_enough (suc n) registry size i seen consumed bs h le =
    elim (Bool-cases (ltb consumed (8 * bs.max_len))) [
      | inl more ↦
          rw (more, check_fields)
            (after-same
              (λ j k b. check_fields (suc n) registry size j (mark j seen) (consumed + k) b)
              (λ j k b. check_fields n registry size j (mark j seen) (consumed + k) b)
              (check_round registry size i seen bs) (update_round registry size i (λ j p. false) bs)
              bs.max_len (round-Agrees registry size i seen (λ j p. false) bs h)
              (λ j k b placed pos same.
                check_fields_enough n registry size j (mark j seen) (consumed + k) b placed
                  (omega (arith, le, pos, same))))
      | inr done ↦ rw (done, check_fields) refl
    ]
