-- ===== src/Codec/Memory.antt =====
-- Memory as the bit stream sees it. A byte is its bits, 0 to 7, the least significant first, and what
-- a `uint8_t*` points to is the bytes from there on, whether they belong to the object or not.
use flight_software.Base.{ℕ, ◌+◌, ◌/◌, ◌%◌, Bool, false, ◌==◌, ltb, if◌then◌else◌}

abbrev pub Byte : Type 0
Byte = ℕ → Bool

abbrev pub Memory : Type 0
Memory = ℕ → Byte

-- Bit `p`, counted through the bytes.
abbrev pub bit_at : Memory → ℕ → Bool
bit_at m p = m (p / 8) (p % 8)

abbrev pub set_byte : Memory → ℕ → Byte → Memory
set_byte m i b j = if j == i then b else m j

-- `memset(m, 0, n)`.
abbrev pub clear_bytes : Memory → ℕ → Memory
clear_bytes m n j = if ltb j n then (λ i. false) else m j

-- `v >>= k`.
abbrev pub shift_right : Byte → ℕ → Byte
shift_right v k i = v (i + k)

-- bit_array::modify_bit, at a position below 8.
abbrev pub modify_bit : Byte → ℕ → Bool → Byte
modify_bit n p b j = if j == p then b else n j
