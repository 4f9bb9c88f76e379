-- ===== src/Codec/Integer/Precision.antt =====
-- How precisely an IntegerSerializer of common/SerializerTypes.inl gives back a number.
use flight_software.Base.{
  ℕ, zero, suc, ◌+◌, ◌-◌, ◌*◌, ◌/◌, ◌%◌, ◌^◌, ◌≤◌, ◌<◌, ◌≡◌, sym, ap, ◌∙◌, true, false, not, ltb,
  ◌==◌, if◌then◌else◌, arith, Bool-cases, inl, inr, subst, u32,
}
use native.Mathlib.Nat.{
  mul-div-le, div-lt_iff_lt-mul, lt-div-mul-add, mul_comm, add-mul, mul-suc, div-eq_of_lt, div_self,
  pow-suc, pow-le-pow_right,
}
use flight_software.Codec.BitArray.{set_ullong, to_ulong, to_ullong-set_ullong}
use flight_software.Codec.Integer.{
  Serializer, log2i, full, num_intervals, resolution, clamp, serialize, deserialize, IsSerializer,
}

intervals-pow : (size : ℕ) → size ≤ 32 → num_intervals size + 1 ≡ 2 ^ size
intervals-pow size le = elim (Bool-cases (ltb size 32)) [
  | inl below ↦ rw below (omega (arith, pos size))
  | inr all ↦ rw all (sym (ap (λ k. 2 ^ k) (whole all)))
]
  where
    pos : (k : ℕ) → 1 ≤ 2 ^ k
    pos k = pow-le-pow_right {n = 2} (omega arith) {i = 0} {j = k} (omega arith)

    whole : ltb size 32 ≡ false → size ≡ 32
    whole all = ground (arith, le, all)

mul_pos : (p n : ℕ) → 0 < n → p ≤ p * n
mul_pos p zero pos = absurd (omega (arith, pos))
mul_pos p (suc m) pos = omega (arith, mul-suc p m)

-- The step of `_resolution`, rounded up, reaches the range.
step-covers :
    (range n : ℕ)
    → 0 < n
    → range < 4294967296
    → range ≤ (if ltb (u32 (range / n * n)) range then u32 (range / n + 1) else range / n) * n
step-covers range n pos word = elim (Bool-cases (ltb (u32 (range / n * n)) range)) [
  | inl short ↦ rw short (
      subst (λ k. range ≤ k * n) (sym (no_wrap short))
        (omega (arith, above, add-mul (range / n) 1 n)))
  | inr exact ↦ rw exact (exactly exact)
]
  where
    below : range / n * n ≤ range
    below = omega (arith, mul-div-le range n, mul_comm n (range / n))

    above : range < range / n * n + n
    above = lt-div-mul-add pos

    no_wrap : ltb (u32 (range / n * n)) range ≡ true → u32 (range / n + 1) ≡ range / n + 1
    no_wrap short = ground (arith, short, below, word, mul_pos (range / n) n pos)

    exactly : ltb (u32 (range / n * n)) range ≡ false → range ≤ range / n * n
    exactly exact = ground (arith, exact, below, word)

clamp-within :
    (s : Serializer) (src : ℕ)
    → IsSerializer s
    → (s.min_value ≤ clamp s src) × (clamp s src ≤ s.max_value)
clamp-within s src h = (ground (arith, h.ordered), ground (arith, h.ordered))

-- The value that is stored, for a step that is not 0.
abbrev steps : Serializer → ℕ → ℕ
steps s src = (clamp s src - s.min_value) / resolution s

resolution-covers :
    (s : Serializer)
    → IsSerializer s
    → 0 < resolution s
    → s.max_value - s.min_value ≤ resolution s * num_intervals s.size
unfolding resolution
resolution-covers s h pos = elim (Bool-cases (num_intervals s.size == 0)) [
  | inl none_told ↦ absurd (ground (arith, pos, none_told))
  | inr told ↦ rw (told, resolution) (covered told)
]
  where
    range : ℕ
    range = s.max_value - s.min_value

    covered :
        (num_intervals s.size == 0) ≡ false
        → range
          ≤ (if ltb (u32 (range / num_intervals s.size * num_intervals s.size)) range
              then u32 (range / num_intervals s.size + 1)
              else range / num_intervals s.size)
            * num_intervals s.size
    covered told =
        step-covers range (num_intervals s.size) (ground (arith, told)) (omega (arith, h.word))

steps-fit :
    (s : Serializer) (src : ℕ) → IsSerializer s → 0 < resolution s → steps s src < 2 ^ s.size
steps-fit s src h pos =
    subst (λ k. steps s src < k) (intervals-pow s.size h.bits)
      ((div-lt_iff_lt-mul pos).1 (
        omega (
          arith,
          resolution-covers s h pos,
          clamp-within s src h,
          add-mul (num_intervals s.size) 1 (resolution s),
          mul_comm (num_intervals s.size) (resolution s),
          pos,
        )))

stored :
    (s : Serializer) (src : ℕ)
    → IsSerializer s
    → 0 < resolution s
    → to_ulong s.size (set_ullong s.size (steps s src) s.serialized_val).1 ≡ steps s src
unfolding to_ulong
stored s src h pos =
    ap (λ v. v % 2 ^ 32)
      (to_ullong-set_ullong s.size (steps s src) s.serialized_val (omega (arith, h.bits)) fit).1
    ∙ omega (arith, fit, pow-le-pow_right {n = 2} (omega arith) {i = s.size} {j = 32} h.bits)
  where
    fit : steps s src < 2 ^ s.size
    fit = steps-fit s src h pos

deserialize-serialize :
    (s : Serializer) (src : ℕ)
    → IsSerializer s
    → 0 < resolution s
    → deserialize (serialize src s) ≡ s.min_value + steps s src * resolution s
unfolding serialize deserialize resolution
deserialize-serialize s src h pos =
    ap
      (λ v.
        u32 (s.min_value + to_ulong s.size (set_ullong s.size v s.serialized_val).1 * resolution s))
      step
    ∙ ap (λ v. u32 (s.min_value + v * resolution s)) (stored s src h pos)
    ∙ inside (resolution s) (steps s src) (mul-div-le (clamp s src - s.min_value) (resolution s))
  where
    step : (if not (resolution s == 0) then steps s src else 0) ≡ steps s src
    step = some_step (resolution s) (steps s src) pos
      where
        some_step : (r k : ℕ) → 0 < r → (if not (r == 0) then k else 0) ≡ k
        some_step r k pos = ground (arith, pos)

    inside :
        (r k : ℕ)
        → r * k ≤ clamp s src - s.min_value
        → u32 (s.min_value + k * r) ≡ s.min_value + k * r
    inside r k le = omega (arith, le, mul_comm r k, clamp-within s src h, h.word)

-- For a serializer of unsigned integers whose resolution is not 0, the number read back is at most
-- the number held between the bounds, and less than one resolution below it.
pub serialize_bounds :
    (s : Serializer) (src : ℕ)
    → IsSerializer s
    → 0 < resolution s
    → (deserialize (serialize src s) ≤ clamp s src)
      × (clamp s src < deserialize (serialize src s) + resolution s)
serialize_bounds s src h pos = (omega (arith, back, low, order), omega (arith, back, high, order))
  where
    back : deserialize (serialize src s) ≡ s.min_value + steps s src * resolution s
    back = deserialize-serialize s src h pos

    low : steps s src * resolution s ≤ clamp s src - s.min_value
    low = omega (
      arith,
      mul-div-le (clamp s src - s.min_value) (resolution s),
      mul_comm (resolution s) (steps s src),
    )

    high : clamp s src - s.min_value < steps s src * resolution s + resolution s
    high = lt-div-mul-add pos

    order : s.min_value ≤ clamp s src
    order = (clamp-within s src h).0

log2i_lem : (n m k : ℕ) → m < 2 ^ n → (e : ℕ) × (log2i n m k ≡ k + e) × (e ≤ n) × (m < 2 ^ e)
unfolding log2i
log2i_lem zero m k lt = (0, omega arith, omega arith, lt)
log2i_lem (suc n) m k lt =
    let rest = log2i_lem n (m / 2) (k + 1) (omega (arith, lt, pow-suc 2 n)) in
    elim (Bool-cases (ltb 0 m)) [
      | inl more ↦ (
        suc rest.0,
        rw (more, log2i) (omega (arith, rest.1)),
        omega (arith, rest.2),
        omega (arith, rest.3, pow-suc 2 rest.0),
      )
      | inr done ↦ (0, rw (done, log2i) (omega arith), omega arith, ground (arith, done))
    ]

-- With an interval for each number of the range, the step is 1.
step-one :
    (range n : ℕ)
    → 0 < range
    → range ≤ n
    → range < 4294967296
    → (if ltb (u32 (range / n * n)) range then u32 (range / n + 1) else range / n) ≡ 1
step-one range n pos le word = elim (Bool-cases (ltb range n)) [
  | inl below ↦
      single (range / n) (range / n * n) (div-eq_of_lt (ground (arith, below))) (none_left below)
  | inr reached ↦ whole (range / n) (range / n * n) (one reached) (all_of reached)
]
  where
    none_left : ltb range n ≡ true → range / n * n ≡ 0
    none_left below = ap (λ k. k * n) (div-eq_of_lt (ground (arith, below))) ∙ omega arith

    same : ltb range n ≡ false → n ≡ range
    same reached = ground (arith, le, reached)

    one : ltb range n ≡ false → range / n ≡ 1
    one reached = ap (λ k. range / k) (same reached) ∙ div_self pos

    all_of : ltb range n ≡ false → range / n * n ≡ range
    all_of reached = ap (λ k. k * n) (one reached) ∙ omega (arith, same reached)

    single : (p q : ℕ) → p ≡ 0 → q ≡ 0 → (if ltb (u32 q) range then u32 (p + 1) else p) ≡ 1
    single p q e e' = ground (arith, e, e', pos)

    whole : (p q : ℕ) → p ≡ 1 → q ≡ range → (if ltb (u32 q) range then u32 (p + 1) else p) ≡ 1
    whole p q e e' = ground (arith, e, e', word)

full-IsSerializer :
    (low high : ℕ)
    → low < high
    → high < 4294967296
    → IsSerializer (full low high) × (resolution (full low high) ≡ 1)
unfolding resolution
full-IsSerializer low high lt word = (
  record { ordered = omega (arith, lt); word = word; bits = few },
  rw (some_told, resolution) step,
)
  where
    size : (e : ℕ) × (log2i 32 (high - low) 0 ≡ 0 + e) × (e ≤ 32) × (high - low < 2 ^ e)
    size = log2i_lem 32 (high - low) 0 (omega (arith, word))

    few : log2i 32 (high - low) 0 ≤ 32
    few = omega (arith, size.1, size.2)

    power : 0 + size.0 ≡ size.0
    power = omega arith

    enough : high - low ≤ num_intervals (log2i 32 (high - low) 0)
    enough = omega (
      arith,
      size.3,
      intervals-pow (log2i 32 (high - low) 0) few,
      ap (λ k. 2 ^ k) size.1 ∙ ap (λ k. 2 ^ k) (power),
    )

    some_told : (num_intervals (log2i 32 (high - low) 0) == 0) ≡ false
    some_told = ground (arith, enough, lt)

    step :
        (if ltb
            (u32 (
              (high - low)
              / num_intervals (log2i 32 (high - low) 0)
              * num_intervals (log2i 32 (high - low) 0)))
            (high - low)
          then u32 ((high - low) / num_intervals (log2i 32 (high - low) 0) + 1)
          else (high - low) / num_intervals (log2i 32 (high - low) 0))
        ≡ 1
    step =
        step-one (high - low) (num_intervals (log2i 32 (high - low) 0)) (omega (arith, lt)) enough
          (omega (arith, word))

-- The serializer that chooses its own size, for two different bounds, gives back each number held
-- between the bounds.
pub serialize_exact :
    (low high src : ℕ)
    → low < high
    → high < 4294967296
    → deserialize (serialize src (full low high)) ≡ clamp (full low high) src
serialize_exact low high src lt word = omega (arith, bounds, chosen.1)
  where
    chosen : IsSerializer (full low high) × (resolution (full low high) ≡ 1)
    chosen = full-IsSerializer low high lt word

    bounds :
        (deserialize (serialize src (full low high)) ≤ clamp (full low high) src)
        × (clamp (full low high) src
            < deserialize (serialize src (full low high)) + resolution (full low high))
    bounds = serialize_bounds (full low high) src chosen.0 (omega (arith, chosen.1))
