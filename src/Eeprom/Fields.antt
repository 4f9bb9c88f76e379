-- ===== src/Eeprom/Fields.antt =====
-- The fields that are kept over a power cycle: their values' representation in the EEPROM, of
-- src/common/StateFieldTypes.inl, and their registration, of src/common/StateFieldRegistry.cpp.
use flight_software.Base.{
  ℕ, suc, ◌+◌, ◌-◌, ◌<◌, ◌≡◌, refl, Bool, true, false, ltb, ◌==◌, ◌&&◌, if◌then◌else◌, List, [],
  ◌∷◌, ◌++◌, Option, none, some, arith, ap,
}

-- An `int` and a `signed char`.
pub data ℤ : Type 0 where
  pos negsuc : ℕ → ℤ

-- The types whose fields can be saved.
pub data Value : Type 0 where
  unsigned_int : ℕ → Value
  signed_int : ℤ → Value
  unsigned_char : ℕ → Value
  signed_char : ℤ → Value
  boolean : Bool → Value

-- The casts of a signed number to an unsigned one of the same size, and back; `half` is half the
-- number of their values.
unfoldable pub to_unsigned : ℕ → ℤ → ℕ
to_unsigned half (ℤ.pos n) = n
to_unsigned half (ℤ.negsuc n) = half + half - suc n

unfoldable pub to_signed : ℕ → ℕ → ℤ
to_signed half n = if ltb n half then ℤ.pos n else ℤ.negsuc (half + half - suc n)

unfoldable pub get_eeprom_repr : Value → ℕ
unfolding to_unsigned
get_eeprom_repr (Value.unsigned_int n) = n
get_eeprom_repr (Value.signed_int z) = to_unsigned 2147483648 z
get_eeprom_repr (Value.unsigned_char n) = n
get_eeprom_repr (Value.signed_char z) = to_unsigned 128 z
get_eeprom_repr (Value.boolean true) = 1
get_eeprom_repr (Value.boolean false) = 0

-- A value that is too large for the field's type leaves the field as it was.
unfoldable pub set_from_eeprom : ℕ → Value → Value
unfolding to_signed
set_from_eeprom v (Value.unsigned_int n) = Value.unsigned_int v
set_from_eeprom v (Value.signed_int z) = Value.signed_int (to_signed 2147483648 v)
set_from_eeprom v (Value.unsigned_char n) =
    if ltb 255 v then Value.unsigned_char n else Value.unsigned_char v
set_from_eeprom v (Value.signed_char z) =
    if ltb 255 v then Value.signed_char z else Value.signed_char (to_signed 128 v)
set_from_eeprom v (Value.boolean b) = if ltb 1 v then Value.boolean b else Value.boolean (v == 1)

-- A field of the registry, its name by the codes of its characters. The period is 0 for a field
-- that is not saved.
pub record Field : Type 0 where
  pub name : List ℕ
  pub eeprom_save_period : ℕ
  pub val : Value

unfoldable pub same_name : List ℕ → List ℕ → Bool
same_name [] [] = true
same_name [] (b ∷ bs) = false
same_name (a ∷ rest) [] = false
same_name (a ∷ rest) (b ∷ bs) = (a == b) && same_name rest bs

-- find_readable_field and find_eeprom_saved_field.
unfoldable pub find_field : List ℕ → List Field → Option Field
unfolding same_name
find_field name [] = none
find_field name (f ∷ fs) = if same_name name f.name then some f else find_field name fs

pub record Registry : Type 0 where
  pub readable_fields : List Field
  pub eeprom_saved_fields : List Field

unfoldable pub add_readable_field : Field → Registry → Bool × Registry
unfolding find_field
add_readable_field f r = elim (find_field f.name r.readable_fields) [
  | some g ↦ (false, r)
  | none ↦
      if ltb 0 f.eeprom_save_period
      then elim (find_field f.name r.eeprom_saved_fields) [
        | some g ↦ (false, r)
        | none ↦ (
          true,
          record {
            readable_fields = r.readable_fields ++ (f ∷ []);
            eeprom_saved_fields = r.eeprom_saved_fields ++ (f ∷ []);
          },
        )
      ]
      else (true, record r { readable_fields = r.readable_fields ++ (f ∷ []) })
]

-- The numbers that a value's type has.
abbrev pub IsSigned : ℕ → ℤ → Type 0
IsSigned half (ℤ.pos n) = n < half
IsSigned half (ℤ.negsuc n) = n < half

-- A value that its type has, and that an old value of the same type may be replaced by.
abbrev pub Replaces : Value → Value → Type 0
Replaces (Value.unsigned_int n) (Value.unsigned_int m) = n < 4294967296
Replaces (Value.signed_int z) (Value.signed_int y) = IsSigned 2147483648 z
Replaces (Value.unsigned_char n) (Value.unsigned_char m) = n < 256
Replaces (Value.signed_char z) (Value.signed_char y) = IsSigned 128 z
Replaces (Value.boolean b) (Value.boolean c) = true ≡ true
Replaces _ _ = true ≡ false

to_signed-to_unsigned :
    (half : ℕ) (z : ℤ) → IsSigned half z → to_signed half (to_unsigned half z) ≡ z
unfolding to_signed to_unsigned
to_signed-to_unsigned half (ℤ.pos n) lt = ground (arith, lt)
to_signed-to_unsigned half (ℤ.negsuc n) lt = ground (arith, lt)

to_unsigned-lt : (z : ℤ) → IsSigned 128 z → to_unsigned 128 z < 256
unfolding to_unsigned
to_unsigned-lt (ℤ.pos n) lt = omega (arith, lt)
to_unsigned-lt (ℤ.negsuc n) lt = omega (arith, lt)

set_signed_char :
    (z y : ℤ)
    → to_unsigned 128 z < 256
    → to_signed 128 (to_unsigned 128 z) ≡ z
    → (if ltb 255 (to_unsigned 128 z)
        then Value.signed_char y
        else Value.signed_char (to_signed 128 (to_unsigned 128 z)))
      ≡ Value.signed_char z
set_signed_char z y lt e = ground (arith, lt, e)

-- A value is read back from its representation, into a field of its type.
pub set_from_eeprom-get_eeprom_repr :
    (v old : Value) → Replaces v old → set_from_eeprom (get_eeprom_repr v) old ≡ v
unfolding set_from_eeprom get_eeprom_repr
set_from_eeprom-get_eeprom_repr (Value.unsigned_int n) (Value.unsigned_int m) lt = refl
set_from_eeprom-get_eeprom_repr (Value.signed_int z) (Value.signed_int y) lt =
    ap Value.signed_int (to_signed-to_unsigned 2147483648 z lt)
set_from_eeprom-get_eeprom_repr (Value.unsigned_char n) (Value.unsigned_char m) lt =
    ground (arith, lt)
set_from_eeprom-get_eeprom_repr (Value.signed_char z) (Value.signed_char y) lt =
    set_signed_char z y (to_unsigned-lt z lt) (to_signed-to_unsigned 128 z lt)
set_from_eeprom-get_eeprom_repr (Value.boolean true) (Value.boolean c) lt = refl
set_from_eeprom-get_eeprom_repr (Value.boolean false) (Value.boolean c) lt = refl
set_from_eeprom-get_eeprom_repr v old lt = ground (arith, lt)
