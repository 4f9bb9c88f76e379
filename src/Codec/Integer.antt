-- ===== src/Codec/Integer.antt =====
-- IntegerSerializer for unsigned integers, src/common/SerializerTypes.inl.
pub mod Precision
use flight_software.Base.{
  ℕ, zero, suc, ◌+◌, ◌-◌, ◌*◌, ◌/◌, ◌%◌, ◌^◌, ◌≤◌, ◌<◌, min, ◌≡◌, refl, sym, ap, ◌∙◌, Bool, true,
  false, not, ltb, ◌==◌, if◌then◌else◌, arith, Bool-cases, inl, inr, subst, u32,
}
use flight_software.Codec.BitArray.{set_ullong, to_ulong}

-- The serializer of an `unsigned int`: the bounds, and the bit array.
pub record Serializer : Type 0 where
  pub min_value : ℕ
  pub max_value : ℕ
  pub size : ℕ
  pub serialized_val : ℕ → Bool

-- The loop of `log2i`, by the rounds left: 32 are enough for an `unsigned int`.
unfoldable pub log2i : ℕ → ℕ → ℕ → ℕ
log2i zero n i = i
log2i (suc rounds) n i = let rest = log2i rounds (n / 2) (i + 1) in if ltb 0 n then rest else i

-- The constructors, with a size and without.
abbrev pub sized : ℕ → ℕ → ℕ → Serializer
sized low high compressed_size = record {
  min_value = low;
  max_value = high;
  size = min compressed_size 32;
  serialized_val = λ i. false;
}

abbrev pub full : ℕ → ℕ → Serializer
full low high = record {
  min_value = low;
  max_value = high;
  size = log2i 32 (high - low) 0;
  serialized_val = λ i. false;
}

-- The intervals that the bits tell apart.
abbrev pub num_intervals : ℕ → ℕ
num_intervals num_bits = if ltb num_bits 32 then 2 ^ num_bits - 1 else 4294967295

unfoldable pub resolution : Serializer → ℕ
resolution s =
    let range = s.max_value - s.min_value in
    let intervals = num_intervals s.size in
    if intervals == 0
    then 0
    else (let interval_per_bit = range / intervals in
        if ltb (u32 (interval_per_bit * intervals)) range
        then u32 (interval_per_bit + 1)
        else interval_per_bit)

abbrev pub clamp : Serializer → ℕ → ℕ
clamp s src =
    let low = if ltb s.max_value src then s.max_value else src in
    if ltb low s.min_value then s.min_value else low

unfoldable pub serialize : ℕ → Serializer → Serializer
serialize src s =
    let val = if not (resolution s == 0) then (clamp s src - s.min_value) / resolution s else 0 in
    record s { serialized_val = (set_ullong s.size val s.serialized_val).1 }

unfoldable pub deserialize : Serializer → ℕ
deserialize s = u32 (s.min_value + to_ulong s.size s.serialized_val * resolution s)

-- The bounds are those of an `unsigned int`, and the bits at most 32, as both constructors make them.
pub record IsSerializer (s : Serializer) : Type 0 where
  pub ordered : s.min_value ≤ s.max_value
  pub word : s.max_value < 4294967296
  pub bits : s.size ≤ 32
