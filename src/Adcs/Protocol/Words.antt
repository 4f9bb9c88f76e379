-- ===== src/Adcs/Protocol/Words.antt =====
-- The words that src/fsw/FCCode/Drivers/ADCS.cpp splits, as src/adcs/state_controller.cpp reads them.
use flight_software.Base.{ℕ, ◌<◌, ◌≡◌, ap, length, List, [], ◌++◌, arith}
use flight_software.Adcs.Registers.{Vector}
use flight_software.Adcs.Receive
use flight_software.Adcs.Receive.{endian_read_u16, endian_read_u32, endian_read_vector}
use flight_software.Adcs.Driver.{split_u16, split_vector, split_u32}

-- What the ADCS computer reads of a word, of three and of a double word is what the driver split.
module _ (absent : ℕ) where
  pub read-split_u16 :
      (n : ℕ) (bs : List ℕ) → n < 65536 → endian_read_u16 absent (split_u16 n ++ bs) ≡ (n, bs)
  unfolding endian_read_u16 split_u16
  read-split_u16 n bs h = ap (λ m. (m, bs)) (omega arith)

  pub read-split_u32 : (n : ℕ) → n < 4294967296 → (endian_read_u32 absent (split_u32 n)).0 ≡ n
  unfolding endian_read_u32 split_u32
  read-split_u32 n h = omega arith

  pub read-split_vector :
      (v : Vector ℕ)
      → v.x < 65536
      → v.y < 65536
      → v.z < 65536
      → endian_read_vector absent (split_vector v) ≡ (v, [])
  unfolding endian_read_vector split_vector endian_read_u16 split_u16 Receive.read
  read-split_vector v hx hy hz = ground arith

pub length-split_vector : (v : Vector ℕ) → length (split_vector v) ≡ 6
unfolding split_vector split_u16
length-split_vector v = omega arith
