-- ===== src/Codec/BitArray.antt =====
-- bit_array, src/common/fixed_array.hpp: the numbers that a bit array holds.
use flight_software.Base.{
  ℕ, zero, suc, ◌+◌, ◌*◌, ◌/◌, ◌%◌, ◌^◌, ◌≤◌, ◌<◌, ◌≡◌, refl, ap, ◌∙◌, Bool, true, false, not, ltb,
  ◌==◌, if◌then◌else◌, arith, Bool-cases, inl, inr, subst,
}
use native.Mathlib.Nat.{mul-add, mul_comm, mul_assoc, pow-suc, pow-le-pow_right}

-- The loop of `num_val_bits_ok`, by the rounds left.
unfoldable pub value_bits : ℕ → ℕ → ℕ → ℕ
value_bits zero i val = i
value_bits (suc n) i val =
    let rest = value_bits n (i + 1) val in if ltb val (2 ^ i) then i else rest

unfoldable pub num_val_bits_ok : ℕ → ℕ → Bool
num_val_bits_ok size val = not (ltb size (value_bits 64 0 val))

-- The loop of `set_ullong`, by the rounds left.
unfoldable pub write_digits : ℕ → ℕ → ℕ → (ℕ → Bool) → ℕ → Bool
write_digits zero i val arr = arr
write_digits (suc n) i val arr =
    let rest = write_digits n (i + 1) (val / 2) (λ j. if j == i then val % 2 == 1 else arr j) in
    if ltb 0 val then rest else arr

-- `set_ullong` on an array of `size` bits: whether the number fits, and the array.
unfoldable pub set_ullong : ℕ → ℕ → (ℕ → Bool) → Bool × (ℕ → Bool)
set_ullong size val arr =
    if not (num_val_bits_ok size val)
    then (false, arr)
    else (true, write_digits 64 0 val (λ j. if ltb j size then false else arr j))

abbrev pub bit : Bool → ℕ
bit b = if b then 1 else 0

abbrev pub u64 : ℕ → ℕ
u64 n = n % 2 ^ 64

-- The loop of `to_ullong`, by the bits left.
unfoldable pub add_bits : ℕ → ℕ → ℕ → ℕ → (ℕ → Bool) → ℕ
add_bits zero i exp val arr = val
add_bits (suc n) i exp val arr =
    add_bits n (i + 1) (u64 (exp * 2)) (u64 (val + bit (arr i) * exp)) arr

unfoldable pub to_ullong : ℕ → (ℕ → Bool) → ℕ
to_ullong size arr = add_bits size 0 1 0 arr

-- On the flight computer an `unsigned long` has 32 bits.
unfoldable pub to_ulong : ℕ → (ℕ → Bool) → ℕ
to_ulong size arr = to_ullong size arr % 2 ^ 32

-- The number of the bits from place `i` on.
digits : ℕ → ℕ → (ℕ → Bool) → ℕ
digits zero i arr = 0
digits (suc n) i arr = bit (arr i) + 2 * digits n (i + 1) arr

digits_bound : (n i : ℕ) (arr : ℕ → Bool) → digits n i arr < 2 ^ n
unfolding digits
digits_bound zero i arr = omega arith
digits_bound (suc n) i arr = ground (arith, digits_bound n (i + 1) arr, pow-suc 2 n)

write_digits-before :
    (n i val : ℕ) (arr : ℕ → Bool) (j : ℕ) → j < i → write_digits n i val arr j ≡ arr j
unfolding write_digits
write_digits-before zero i val arr j lt = refl
write_digits-before (suc n) i val arr j lt =
    ground (
      arith,
      write_digits-before n (i + 1) (val / 2) (λ j. if j == i then val % 2 == 1 else arr j) j,
    )

digits_zero :
    (n i : ℕ) (arr : ℕ → Bool) → ((j : ℕ) → i ≤ j → j < i + n → arr j ≡ false) → digits n i arr ≡ 0
unfolding digits
digits_zero zero i arr h = refl
digits_zero (suc n) i arr h = ground (
  arith,
  digits_zero n (i + 1) arr (λ j le lt. h j (omega arith) (omega arith)),
  h i (omega arith) (omega arith),
)

write_digits-zero : (n i : ℕ) (arr : ℕ → Bool) → write_digits n i 0 arr ≡ arr
unfolding write_digits
write_digits-zero zero i arr = refl
write_digits-zero (suc n) i arr = refl

bit_lem : (n : ℕ) → bit (n % 2 == 1) ≡ n % 2
bit_lem n = ground arith

write_digits-more :
    (n i val : ℕ) (arr : ℕ → Bool)
    → 0 < val
    → write_digits (suc n) i val arr
      ≡ write_digits n (i + 1) (val / 2) (λ j. if j == i then val % 2 == 1 else arr j)
unfolding write_digits
write_digits-more n i val arr pos = rw (more, write_digits) refl
  where
    more : ltb 0 val ≡ true
    more = ground (arith, pos)

digits-suc :
    (k i : ℕ) (arr : ℕ → Bool) → digits (suc k) i arr ≡ bit (arr i) + 2 * digits k (i + 1) arr
unfolding digits
digits-suc k i arr = refl

-- A digit and the digits behind it.
digits_round :
    (k n i val : ℕ) (arr : ℕ → Bool)
    → 0 < val
    → digits k
        (i + 1)
        (write_digits n (i + 1) (val / 2) (λ j. if j == i then val % 2 == 1 else arr j))
      ≡ val / 2
    → digits (suc k) i (write_digits (suc n) i val arr) ≡ val
digits_round k n i val arr pos rest =
    ap (digits (suc k) i) (write_digits-more n i val arr pos)
    ∙ digits-suc k i (write_digits n (i + 1) (val / 2) after)
    ∙ ap (λ b. bit b + 2 * digits k (i + 1) (write_digits n (i + 1) (val / 2) after))
        (write_digits-before n (i + 1) (val / 2) after i (omega arith) ∙ here)
    ∙ omega (arith, rest, bit_lem val)
  where
    after : ℕ → Bool
    after j = if j == i then val % 2 == 1 else arr j

    here : after i ≡ (val % 2 == 1)
    here = ground arith

-- The digits that are written are those of the number.
digits-write_digits :
    (k n i val : ℕ) (arr : ℕ → Bool)
    → ((j : ℕ) → i ≤ j → j < i + k → arr j ≡ false)
    → val < 2 ^ k
    → val < 2 ^ n
    → digits k i (write_digits n i val arr) ≡ val
digits-write_digits k n i zero arr h lt lt' =
    ap (digits k i) (write_digits-zero n i arr) ∙ digits_zero k i arr h
digits-write_digits zero n i (suc v) arr h lt lt' = absurd (omega (arith, lt))
digits-write_digits (suc k) zero i (suc v) arr h lt lt' = absurd (omega (arith, lt'))
digits-write_digits (suc k) (suc n) i (suc v) arr h lt lt' =
    digits_round k n i (suc v) arr (omega arith) (
      digits-write_digits k n (i + 1) (suc v / 2) (λ j. if j == i then suc v % 2 == 1 else arr j)
        (λ j le lt. ground (arith, h j (omega (arith, le)) (omega (arith, lt))))
        (omega (arith, lt, pow-suc 2 k)) (omega (arith, lt', pow-suc 2 n)))

pow-bound : (e n : ℕ) → e + n ≤ 64 → 2 ^ e ≤ 2 ^ 64
pow-bound e n le = pow-le-pow_right {n = 2} (omega arith) {i = e} {j = 64} (omega (arith, le))

-- A round of `to_ullong` does not wrap.
add_round :
    (p q d val b : ℕ) → q ≡ p * 2 → val < p → b ≤ 1 → val + b * p + q * d ≡ val + p * (b + 2 * d)
add_round p q d val b eq lt le =
    omega (arith, mul-add p b (2 * d), mul_comm b p, ap (λ x. x * d) eq ∙ mul_assoc p 2 d)

add_bits_lem :
    (n i e val : ℕ) (arr : ℕ → Bool)
    → val < 2 ^ e
    → e + n ≤ 64
    → add_bits n i (u64 (2 ^ e)) val arr ≡ val + 2 ^ e * digits n i arr
unfolding add_bits digits
add_bits_lem zero i e val arr lt le = omega arith
add_bits_lem (suc n) i e val arr lt le =
    ap (λ x. add_bits n (i + 1) x (u64 (val + bit (arr i) * u64 (2 ^ e))) arr) exp'
    ∙ ap (λ x. add_bits n (i + 1) (u64 (2 ^ (e + 1))) x arr) val'
    ∙ add_bits_lem n (i + 1) (e + 1) (val + bit (arr i) * 2 ^ e) arr small (omega (arith, le))
    ∙ add_round (2 ^ e) (2 ^ (e + 1)) (digits n (i + 1) arr) val (bit (arr i)) twice lt one
  where
    twice : 2 ^ (e + 1) ≡ 2 ^ e * 2
    twice = ap (λ k. 2 ^ k) (omega arith) ∙ pow-suc 2 e

    bound : 2 ^ (e + 1) ≤ 2 ^ 64
    bound = pow-bound (e + 1) n (omega (arith, le))

    one : bit (arr i) ≤ 1
    one = ground arith

    small : val + bit (arr i) * 2 ^ e < 2 ^ (e + 1)
    small = ground (arith, lt, twice)

    exp' : u64 (u64 (2 ^ e) * 2) ≡ u64 (2 ^ (e + 1))
    exp' = omega (arith, lt, twice, bound)

    val' : u64 (val + bit (arr i) * u64 (2 ^ e)) ≡ val + bit (arr i) * 2 ^ e
    val' = ground (arith, lt, twice, bound)

to_ullong-digits : (size : ℕ) (arr : ℕ → Bool) → size ≤ 64 → to_ullong size arr ≡ digits size 0 arr
unfolding to_ullong
to_ullong-digits size arr le =
    add_bits_lem size 0 0 0 arr (omega arith) (omega (arith, le)) ∙ omega arith

value_bits-fit :
    (n i size val : ℕ) → val < 2 ^ size → i ≤ size → size ≤ i + n → value_bits n i val ≤ size
unfolding value_bits
value_bits-fit zero i size val lt le le' = le
value_bits-fit (suc n) i size val lt le le' = elim (Bool-cases (ltb val (2 ^ i))) [
  | inl here ↦ rw (here, value_bits) le
  | inr more ↦
      rw (more, value_bits)
        (value_bits-fit n (i + 1) size val lt (further more) (omega (arith, le')))
]
  where
    further : ltb val (2 ^ i) ≡ false → i + 1 ≤ size
    further more = elim (Bool-cases (ltb i size)) [
      | inl below ↦ ground (arith, below)
      | inr above ↦ absurd (ground (arith, more, subst (λ k. val < 2 ^ k) (same above) lt))
    ]
      where
        same : ltb i size ≡ false → size ≡ i
        same above = ground (arith, above, le)

-- A number below the power of the size fits, and is read again.
pub to_ullong-set_ullong :
    (size val : ℕ) (arr : ℕ → Bool)
    → size ≤ 64
    → val < 2 ^ size
    → ((set_ullong size val arr).0 ≡ true) × (to_ullong size (set_ullong size val arr).1 ≡ val)
unfolding set_ullong num_val_bits_ok
to_ullong-set_ullong size val arr le lt = (
  ap (λ r. r.0) written,
  ap (λ r. to_ullong size r.1) written
      ∙ to_ullong-digits size (write_digits 64 0 val cleared) le
      ∙ digits-write_digits size 64 0 val cleared clear lt
          (omega (arith, lt, pow-bound size 0 (omega (arith, le)))),
)
  where
    cleared : ℕ → Bool
    cleared j = if ltb j size then false else arr j

    clear : (j : ℕ) → 0 ≤ j → j < 0 + size → cleared j ≡ false
    clear j pos below = ground (arith, below)

    fits : ltb size (value_bits 64 0 val) ≡ false
    fits = ground (arith, value_bits-fit 64 0 size val lt (omega arith) (omega (arith, le)))

    written : set_ullong size val arr ≡ (true, write_digits 64 0 val cleared)
    written = rw (fits, set_ullong) refl
