-- ===== src/Adcs/Havt/Commands.antt =====
-- What becomes of the flight computer's commands to the devices, and of their table, when no
-- message interrupts `update_havt` of src/adcs/main.cpp.
use flight_software.Base.{
  ℕ, zero, suc, ◌≡◌, ◌≤◌, ◌<◌, ◌^◌, refl, sym, ap, subst, ◌∙◌, Bool, true, false, ◌&&◌, ◌||◌, ◌==◌,
  if◌then◌else◌, Option, none, some, List, [], ◌∷◌, length, get_or, get_elem?, arith,
}
use flight_software.Floats.{FloatArith, CastLaws}
use flight_software.Adcs.Registers.{Registers, updated, outdated}
use flight_software.Adcs.Receive.{receive_all}
use flight_software.Adcs.Bitset.{to_ulong, of_ulong, of_ulong-to_ulong, to_ulong-lt}
use flight_software.Adcs.Pipeline.{quiet}
use flight_software.Adcs.Commander.{AdcsFields}
use flight_software.Adcs.Controller
use flight_software.Adcs.Controller.{reset_table, disable_table, some_set}
use flight_software.Adcs.Controller.Tables.{
  reset_disable_tables, length-reset_table, length-disable_table,
}
use flight_software.Adcs.Controller.Delivery.{
  expected, expected_havt, all_messages, receive_all-execute,
}
use flight_software.Adcs.Readout
use flight_software.Adcs.Readout.ReadBack.{get_havt_lem}
use flight_software.Adcs.Havt.{
  DeviceOps, update_read_table, execute_cmd_reset_table, execute_cmd_disable_table, handle_reset,
  handle_disable, update_havt,
}

of_ulong-length : (bits : List Bool) → length bits ≡ 32 → of_ulong 32 (to_ulong bits) ≡ bits
of_ulong-length bits h =
    subst (λ (n : ℕ). of_ulong n (to_ulong bits) ≡ bits) h (of_ulong-to_ulong bits)

some_set-get_or :
    (fields : List Bool) (i : ℕ)
    → (some_set fields && get_or fields i false) ≡ get_or fields i false
unfolding some_set
some_set-get_or [] i = refl
some_set-get_or (true ∷ fields) i = refl
some_set-get_or (false ∷ fields) zero = ground arith
some_set-get_or (false ∷ fields) (suc i) = some_set-get_or fields i

module _ {D : Type 0} ⦃d : DeviceOps D⦄ where
  abbrev pub at : List D → ℕ → Option D
  at = get_elem?

  at-disable_table :
      (table : List Bool) (devices : List D) (i : ℕ) (x : D)
      → at devices i ≡ some x
      → length devices ≤ length table
      → at (execute_cmd_disable_table table devices) i
        ≡ some (if get_or table i false then d.disable x else x)
  unfolding execute_cmd_disable_table
  at-disable_table table [] i x e h = ground (arith, e)
  at-disable_table [] (y ∷ devices) i x e h = absurd (omega arith)
  at-disable_table (bit ∷ table) (y ∷ devices) zero x e h = ground (arith, e)
  at-disable_table (bit ∷ table) (y ∷ devices) (suc i) x e h =
      at-disable_table table devices i x e (omega arith)

  at-reset_table :
      (table : List Bool) (devices : List D) (i : ℕ) (x : D)
      → at devices i ≡ some x
      → length devices ≤ length table
      → at (execute_cmd_reset_table table devices) i
        ≡ some (if get_or table i false then d.reset x else x)
  unfolding execute_cmd_reset_table
  at-reset_table table [] i x e h = ground (arith, e)
  at-reset_table [] (y ∷ devices) i x e h = absurd (omega arith)
  at-reset_table (bit ∷ table) (y ∷ devices) zero x e h = ground (arith, e)
  at-reset_table (bit ∷ table) (y ∷ devices) (suc i) x e h =
      at-reset_table table devices i x e (omega arith)

  length-update_read_table : (n : ℕ) (devices : List D) → length (update_read_table n devices) ≡ n
  unfolding update_read_table
  length-update_read_table zero devices = refl
  length-update_read_table (suc n) [] = ap suc (length-update_read_table n [])
  length-update_read_table (suc n) (x ∷ devices) = ap suc (length-update_read_table n devices)

  get_or-update_read_table :
      (n : ℕ) (devices : List D) (i : ℕ)
      → i < n
      → get_or (update_read_table n devices) i false
        ≡ elim (get_elem? devices i) [ none ↦ false | some x ↦ d.is_functional x ]
  unfolding update_read_table
  get_or-update_read_table zero devices i lt = absurd (omega (arith, lt))
  get_or-update_read_table (suc n) [] zero lt = refl
  get_or-update_read_table (suc n) [] (suc i) lt =
      get_or-update_read_table n [] i (omega (arith, lt))
  get_or-update_read_table (suc n) (x ∷ devices) zero lt = refl
  get_or-update_read_table (suc n) (x ∷ devices) (suc i) lt =
      get_or-update_read_table n devices i (omega (arith, lt))

  length-execute_cmd_reset_table :
      (table : List Bool) (devices : List D)
      → length (execute_cmd_reset_table table devices) ≡ length devices
  unfolding execute_cmd_reset_table
  length-execute_cmd_reset_table table [] = refl
  length-execute_cmd_reset_table [] (x ∷ devices) = refl
  length-execute_cmd_reset_table (bit ∷ table) (x ∷ devices) =
      ap suc (length-execute_cmd_reset_table table devices)

  -- Both commands at one device.
  at-both :
      (reset_flg disable_flg : Bool) (reset disable : List Bool) (devices : List D) (i : ℕ) (x : D)
      → at devices i ≡ some x
      → length devices ≤ length reset
      → length devices ≤ length disable
      → at
          (let done = if reset_flg then execute_cmd_reset_table reset devices else devices in
            if disable_flg then execute_cmd_disable_table disable done else done)
          i
        ≡ some (
            let y = if reset_flg && get_or reset i false then d.reset x else x in
            if disable_flg && get_or disable i false then d.disable y else y)
  at-both false false reset disable devices i x e h k = e
  at-both false true reset disable devices i x e h k = at-disable_table disable devices i x e k
  at-both true false reset disable devices i x e h k = at-reset_table reset devices i x e h
  at-both true true reset disable devices i x e h k =
      at-disable_table disable (execute_cmd_reset_table reset devices) i _
        (at-reset_table reset devices i x e h)
        (omega (arith, k, length-execute_cmd_reset_table reset devices))

  -- A table that is taken when its flag is set.
  flagged :
      (execute : List Bool → List D → List D) (given : Bool) (table : List Bool) (flag old : ℕ)
      (devices : List D)
      → flag ≡ outdated
      → length table ≡ 32
      → (if (if given then updated else flag) == updated
          then execute (of_ulong 32 (if given then to_ulong table else old)) devices
          else devices)
        ≡ (if given then execute table devices else devices)
  flagged execute true table flag old devices clear h =
      ap (λ (t : List Bool). execute t devices) (of_ulong-length table h)
  flagged execute false table flag old devices clear h = rw clear

  module _ {Float : Type 0} ⦃o : FloatArith Float⦄ (absent : ℕ) where
    update_havt_read_table :
        (devices : List D) (r : Registers Float)
        → (update_havt absent quiet devices r).1.havt.read_table
          ≡ to_ulong (update_read_table 32 devices)
    unfolding update_havt handle_reset handle_disable receive_all quiet
    update_havt_read_table devices r = ground arith

    read_back :
        ⦃laws : CastLaws Float⦄ (devices : List D) (r : Registers Float)
        → (Readout.get_havt absent (update_havt absent quiet devices r).1).0
          ≡ update_read_table 32 devices
    read_back devices r =
        ap (λ t. t.0)
          (get_havt_lem absent (update_havt absent quiet devices r).1
            (subst (λ (n : ℕ). n < 4294967296) (sym table) small))
        ∙ (ap (of_ulong 32) table
            ∙ of_ulong-length (update_read_table 32 devices) (length-update_read_table 32 devices))
      where
        table :
            (update_havt absent quiet devices r).1.havt.read_table
            ≡ to_ulong (update_read_table 32 devices)
        table = update_havt_read_table devices r

        small : to_ulong (update_read_table 32 devices) < 4294967296
        small =
            subst (λ (k : ℕ). to_ulong (update_read_table 32 devices) < 2 ^ k)
              (length-update_read_table 32 devices) (to_ulong-lt (update_read_table 32 devices))

    -- What a quiet pass makes of the devices.
    update_havt_devices :
        (devices : List D) (r : Registers Float)
        → (update_havt absent quiet devices r).0 ≡ (
            let reset =
              if r.havt.cmd_reset_flg == updated
              then execute_cmd_reset_table (of_ulong 32 r.havt.cmd_reset_table) devices
              else devices in
            if r.havt.cmd_disable_flg == updated
            then execute_cmd_disable_table (of_ulong 32 r.havt.cmd_disable_table) reset
            else reset)
    unfolding update_havt handle_reset handle_disable receive_all quiet
    update_havt_devices devices r = ground arith

    module _ ⦃laws : CastLaws Float⦄ where
      -- The table that the flight computer reads after a pass of the loop that no message interrupts
      -- has 32 bits. The bit at an index is set exactly if there is a device of this index and it was
      -- functional as the pass began, whatever its commands then made of it.
      pub get_havt-update_havt :
          (devices : List D) (r : Registers Float) (i : ℕ)
          → i < 32
          → let table = (Readout.get_havt absent (update_havt absent quiet devices r).1).0 in
            (length table ≡ 32)
            × (get_or table i false
                ≡ elim (get_elem? devices i) [ none ↦ false | some x ↦ d.is_functional x ])
      get_havt-update_havt devices r i lt = (
        ap length (read_back devices r) ∙ length-update_read_table 32 devices,
        ap (λ (t : List Bool). get_or t i false) (read_back devices r)
            ∙ get_or-update_read_table 32 devices i lt,
      )

      -- What a control cycle of the box controller and a pass of the loop that no message interrupts
      -- make of the device at an index, when the commands before were carried out: it is reset if that is asked for, and
      -- then it is disabled if any device is to be disabled and this one is to be disabled or to be
      -- reset. For up to 32 devices and fields.
      pub commands_reach_device :
          (f : AdcsFields Float) (r : Registers Float) (devices : List D) (i : ℕ) (x : D)
          → length f.havt_reset ≤ 32
          → length f.havt_disable ≤ 32
          → length devices ≤ 32
          → r.havt.cmd_reset_flg ≡ outdated
          → r.havt.cmd_disable_flg ≡ outdated
          → at devices i ≡ some x
          → at
              (update_havt absent quiet devices
                (receive_all absent (all_messages (Controller.execute f).0) r)).0
              i
            ≡ some (
                let y = if get_or f.havt_reset i false then d.reset x else x in
                if some_set f.havt_disable
                  && (get_or f.havt_disable i false || get_or f.havt_reset i false)
                then d.disable y
                else y)
      unfolding expected expected_havt
      commands_reach_device f r devices i x hr hd hl fr fd e =
          rw
            (
              receive_all-execute absent f r,
              update_havt_devices,
              flagged execute_cmd_reset_table (some_set f.havt_reset) (reset_table f)
                  r.havt.cmd_reset_flg r.havt.cmd_reset_table devices fr reset_size,
              flagged execute_cmd_disable_table (some_set f.havt_disable) (disable_table f)
                  r.havt.cmd_disable_flg r.havt.cmd_disable_table
                  (if some_set f.havt_reset
                    then execute_cmd_reset_table (reset_table f) devices
                    else devices)
                  fd disable_size,
              at-both (some_set f.havt_reset) (some_set f.havt_disable) (reset_table f)
                  (disable_table f) devices i x e (omega (arith, reset_size, hl))
                  (omega (arith, disable_size, hl)),
              (reset_disable_tables f i hr hd).0,
              (reset_disable_tables f i hr hd).1,
              some_set-get_or,
            )
            refl
        where
          reset_size : length (reset_table f) ≡ 32
          reset_size = length-reset_table f

          disable_size : length (disable_table f) ≡ 32
          disable_size = length-disable_table f
