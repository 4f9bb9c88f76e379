-- ===== src/Adcs/Controller/Tables.antt =====
-- The tables of devices that src/fsw/FCCode/ADCSBoxController.cpp sends.
use flight_software.Base.{
  ℕ, zero, suc, ◌≡◌, ◌≤◌, refl, ap, ◌∙◌, Bool, false, ◌||◌, List, [], ◌∷◌, get_or, length, arith,
}
use flight_software.Floats.{FloatArith}
use flight_software.Adcs.Bitset.{none_set}
use flight_software.Adcs.Commander.{AdcsFields}
use flight_software.Adcs.Controller.{load, some_set, clear, reset_table, disable_table}

pub length-load : (fields table : List Bool) → length (load fields table) ≡ length table
unfolding load
length-load [] table = refl
length-load (get ∷ fields) [] = refl
length-load (get ∷ fields) (bit ∷ table) = ap suc (length-load fields table)

pub length-none_set : (n : ℕ) → length (none_set n) ≡ n
unfolding none_set
length-none_set zero = refl
length-none_set (suc n) = ap suc (length-none_set n)

get_or-none_set : (n i : ℕ) → get_or (none_set n) i false ≡ false
unfolding none_set
get_or-none_set zero i = refl
get_or-none_set (suc n) zero = refl
get_or-none_set (suc n) (suc i) = get_or-none_set n i

get_or-load :
    (fields table : List Bool) (i : ℕ)
    → length fields ≤ length table
    → get_or (load fields table) i false ≡ (get_or fields i false || get_or table i false)
unfolding load
get_or-load [] table i h = refl
get_or-load (get ∷ fields) [] i h = absurd (omega arith)
get_or-load (get ∷ fields) (bit ∷ table) zero h = ground arith
get_or-load (get ∷ fields) (bit ∷ table) (suc i) h = get_or-load fields table i (omega arith)

some_set-clear : (fields : List Bool) → some_set (clear fields) ≡ false
unfolding some_set clear
some_set-clear [] = refl
some_set-clear (get ∷ fields) = ground (arith, some_set-clear fields)

module _ {Float : Type 0} ⦃o : FloatArith Float⦄ (f : AdcsFields Float) where
  -- The reset table has a device's bit set exactly when its reset is asked for. The disable table
  -- has it set when the disabling is asked for, and also when only the reset is: so a cycle that
  -- resets a device and disables another disables the first one as well. For up to 32 devices.
  pub reset_disable_tables :
      (i : ℕ)
      → length f.havt_reset ≤ 32
      → length f.havt_disable ≤ 32
      → (get_or (reset_table f) i false ≡ get_or f.havt_reset i false)
        × (get_or (disable_table f) i false
            ≡ (get_or f.havt_disable i false || get_or f.havt_reset i false))
  unfolding reset_table disable_table
  reset_disable_tables i hr hd = (of_reset, ground (arith, of_disable, of_reset))
    where
      of_reset : get_or (load f.havt_reset (none_set 32)) i false ≡ get_or f.havt_reset i false
      of_reset = ground (
        arith,
        get_or-load f.havt_reset (none_set 32) i,
        get_or-none_set 32 i,
        length-none_set 32,
      )

      of_disable :
          get_or (load f.havt_disable (load f.havt_reset (none_set 32))) i false
          ≡ (get_or f.havt_disable i false || get_or (load f.havt_reset (none_set 32)) i false)
      of_disable =
          get_or-load f.havt_disable (load f.havt_reset (none_set 32)) i
            (omega (arith, length-load f.havt_reset (none_set 32), length-none_set 32))

  pub length-reset_table : length (reset_table f) ≡ 32
  unfolding reset_table
  length-reset_table = length-load f.havt_reset (none_set 32) ∙ length-none_set 32

  pub length-disable_table : length (disable_table f) ≡ 32
  unfolding disable_table
  length-disable_table = length-load f.havt_disable (reset_table f) ∙ length-reset_table
