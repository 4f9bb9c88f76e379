-- ===== src/Events.antt =====
-- Event and EventStorage, src/common/Event.cpp and EventStorage.cpp. A bit array is a list of bits, and
-- the data fields of an event are the bit arrays that their `serialize` leaves.
pub mod Ring
use flight_software.Base.{
  ℕ, zero, suc, ◌+◌, ◌-◌, ◌*◌, ◌/◌, ◌%◌, Bool, true, false, ◌==◌, if◌then◌else◌, List, [], ◌∷◌,
  ◌++◌, length, get_or, set,
}
use flight_software.Codec.BitArray.{bit}

-- std::bitset from a number, and back.
unfoldable pub bits_of : ℕ → ℕ → List Bool
bits_of zero n = []
bits_of (suc k) n = (n % 2 == 1) ∷ bits_of k (n / 2)

unfoldable pub to_ulong : List Bool → ℕ
to_ulong [] = 0
to_ulong (b ∷ bs) = bit b + 2 * to_ulong bs

unfoldable pub take : ℕ → List Bool → List Bool
take zero bs = []
take (suc n) [] = []
take (suc n) (b ∷ bs) = b ∷ take n bs

unfoldable pub drop : ℕ → List Bool → List Bool
drop zero bs = bs
drop (suc n) [] = []
drop (suc n) (b ∷ bs) = drop n bs

-- The loop over the data fields of `serialize`.
unfoldable pub append_fields : List (List Bool) → List Bool
append_fields [] = []
append_fields (field ∷ fields) = field ++ append_fields fields

unfoldable pub serialize : ℕ → List (List Bool) → List Bool
serialize ccno fields = bits_of 32 ccno ++ append_fields fields

-- The loop of `deserialize`, over the sizes of the fields.
unfoldable pub split_fields : List ℕ → List Bool → List (List Bool)
split_fields [] bits = []
split_fields (size ∷ sizes) bits = take size bits ∷ split_fields sizes (drop size bits)

unfoldable pub deserialize : List ℕ → List Bool → ℕ × List (List Bool)
deserialize sizes field_data =
    (to_ulong (take 32 field_data), split_fields sizes (drop 32 field_data))

pub record EventStorage : Type 0 where
  pub sub_events : List (List Bool)
  pub event_ptr : ℕ

-- `signal`, at a control cycle and with the fields as they are then.
unfoldable pub signal : ℕ → List (List Bool) → EventStorage → EventStorage
signal ccno fields s =
    let ptr = s.event_ptr + 1 in
    record {
      sub_events = set s.sub_events s.event_ptr (serialize ccno fields);
      event_ptr = if ptr == length s.sub_events then 0 else ptr;
    }

-- What `get_bit_array` and `print` show: the slot at the pointer.
unfoldable pub get_bit_array : EventStorage → List Bool
get_bit_array s = get_or s.sub_events s.event_ptr []
