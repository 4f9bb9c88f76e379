-- ===== src/Uplink/Cycle.antt =====
-- UplinkConsumer::execute, src/fsw/FCCode/UplinkConsumer.cpp, over all packets.
use flight_software.Base.{
  ℕ, ◌+◌, ◌*◌, ◌≡◌, refl, subst, true, false, inl, inr, Bool-cases, arith, List, Option, none, some,
  ◌==◌, ◌≤◌, ◌<◌, ◌^◌, length, zero, suc, ltb, ◌/◌, ◌-◌, ◌⊎◌, ltb→lt,
}
use native.Mathlib.Nat.{pow-suc, le-div_iff_mul-le, div-lt_iff_lt-mul}
use flight_software.Codec.Memory.{Memory}
use flight_software.Codec.Bitstream.{Bitstream, new, reset}
use flight_software.Codec.Reading.{IsPlaced}
use flight_software.Uplink.{
  Fields, check_fields, check_padding, validate_packet, update_loop, update_fields, Consumer,
  initialized, consume, execute, index_bits, init_uplink,
}
use flight_software.Uplink.Packets.{loops-agree}

reset-IsPlaced : (bs : Bitstream) → IsPlaced (reset bs)
unfolding reset
reset-IsPlaced bs = record { offset_bound = omega arith; within = omega arith }

-- A packet that validate_packet passes is one through which update_fields goes without reading
-- outside of the writable fields.
pub update_fields-validate_packet :
    (registry : List ℕ) (size : ℕ) (bs : Bitstream) (fields : Fields)
    → validate_packet registry size bs ≡ true
    → (fields' : Fields) × update_fields registry size bs fields ≡ some fields'
unfolding validate_packet update_fields reset
update_fields-validate_packet registry size bs fields passed =
    go (check_fields (8 * bs.max_len) registry size 0 (λ i. false) 0 (reset bs)) refl passed
  where
    go :
        (r : Option Bitstream)
        → check_fields (8 * bs.max_len) registry size 0 (λ i. false) 0 (reset bs) ≡ r
        → (elim r [ none ↦ false | some bs' ↦ check_padding bs' ]) ≡ true
        → (fields' : Fields) × update_loop (8 * bs.max_len) registry size 0 0 fields (reset bs)
            ≡ some fields'
    go none e p = absurd (ground (arith, p))
    go (some end) e p =
        loops-agree (8 * bs.max_len) registry size 0 (λ i. false) 0 fields (reset bs) end
          (reset-IsPlaced bs) e

-- However the packet, `execute` does not leave the registry, and where there was a packet its length is
-- cleared.
consume_total :
    (registry : List ℕ) (packet : Memory) (c : Consumer)
    → (c' : Consumer) × (consume registry packet c ≡ some c') × (c'.radio_mt_packet_len ≡ 0)
unfolding consume
consume_total registry packet c = elim (Bool-cases (validate_packet registry c.index_size bs)) [
  | inl passed ↦
      through passed (update_fields-validate_packet registry c.index_size bs c.fields passed)
  | inr refused ↦ (record c { radio_mt_packet_len = 0 }, rw (refused, consume) refl, refl)
]
  where
    bs : Bitstream
    bs = new packet c.radio_mt_packet_len

    through :
        validate_packet registry c.index_size bs ≡ true
        → (fields' : Fields) × update_fields registry c.index_size bs c.fields ≡ some fields'
        → (c' : Consumer) × (consume registry packet c ≡ some c') × (c'.radio_mt_packet_len ≡ 0)
    through passed r =
        (record c { fields = r.0; radio_mt_packet_len = 0 }, rw (passed, r.1, consume) refl, refl)

-- The task when the radio has a packet.
abbrev pub waiting : ℕ → ℕ → Memory → Fields → Consumer
waiting size len packet fields = record {
  index_size = size;
  radio_mt_packet_len = len;
  radio_mt_packet = some packet;
  fields = fields;
}

some_bytes : (n : ℕ) → (suc n == 0) ≡ false
some_bytes n = ground arith

-- Whatever the packet and its length, execute does not read outside of the writable fields, and it
-- leaves the length of the packet at 0.
pub execute_total :
    (registry : List ℕ) (size len : ℕ) (packet : Memory) (fields : Fields)
    → (c : Consumer) × (execute registry (waiting size len packet fields) ≡ some c)
      × (c.radio_mt_packet_len ≡ 0)
unfolding execute
execute_total registry size zero packet fields =
    (waiting (initialized registry size) 0 packet fields, refl, refl)
execute_total registry size (suc n) packet fields =
    rw (some_bytes n, execute)
      (consume_total registry packet (waiting (initialized registry size) (suc n) packet fields))

-- A packet that validate_packet refuses changes no field; its length is cleared.
pub execute_refused :
    (registry : List ℕ) (size len : ℕ) (packet : Memory) (fields : Fields)
    → validate_packet registry (initialized registry size) (new packet len) ≡ false
    → execute registry (waiting size len packet fields)
      ≡ some (waiting (initialized registry size) 0 packet fields)
unfolding execute consume
execute_refused registry size zero packet fields refused = refl
execute_refused registry size (suc n) packet fields refused =
    rw (some_bytes n, refused, consume, execute) refl

two_pow_pos : (k : ℕ) → 0 < 2 ^ k
two_pow_pos zero = omega arith
two_pow_pos (suc k) = omega (arith, two_pow_pos k, pow-suc 2 k)

-- The test of the loop of `init_uplink`.
more_bits : (fields k : ℕ) → ltb 0 ((fields + 1) / 2 ^ k) ≡ true → 2 ^ k ≤ fields + 1
more_bits fields k h =
    omega (arith, (le-div_iff_mul-le (two_pow_pos k)).0 (ltb→lt 0 ((fields + 1) / 2 ^ k) h))

enough_bits : (fields k : ℕ) → ltb 0 ((fields + 1) / 2 ^ k) ≡ false → fields + 1 < 2 ^ k
enough_bits fields k h = omega (arith, (div-lt_iff_lt-mul (two_pow_pos k)).0 below)
  where
    below : (fields + 1) / 2 ^ k < 1
    below = ground (arith, h)

index_bits_lem :
    (n fields k : ℕ)
    → fields + 1 < 2 ^ (k + n)
    → (k ≡ 1) ⊎ (2 ^ (k - 1) ≤ fields + 1)
    → (fields + 1 < 2 ^ index_bits n fields k)
      × ((index_bits n fields k ≡ 1) ⊎ (2 ^ (index_bits n fields k - 1) ≤ fields + 1))
unfolding index_bits
index_bits_lem zero fields k small least =
    (subst (λ j. fields + 1 < 2 ^ j) (omega arith) small, least)
index_bits_lem (suc n) fields k small least = elim (Bool-cases (ltb 0 ((fields + 1) / 2 ^ k))) [
  | inl more ↦
      rw (more, index_bits)
        (index_bits_lem n fields (k + 1) (subst (λ j. fields + 1 < 2 ^ j) (omega arith) small)
          (inr (subst (λ j. 2 ^ j ≤ fields + 1) (omega arith) (more_bits fields k more))))
  | inr done ↦ rw (done, index_bits) (enough_bits fields k done, least)
]

-- With fewer than 2^32 - 1 writable fields, init_uplink gives a number of bits in which the number
-- of fields plus 1 fits, and if it is more than 1 no smaller one would do.
pub init_uplink_least :
    (registry : List ℕ)
    → length registry + 1 < 2 ^ 32
    → (length registry + 1 < 2 ^ init_uplink registry)
      × ((init_uplink registry ≡ 1) ⊎ (2 ^ (init_uplink registry - 1) ≤ length registry + 1))
unfolding init_uplink
init_uplink_least registry small =
    index_bits_lem 32 (length registry) 1 (omega (arith, small)) (inl refl)
