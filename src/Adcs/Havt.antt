-- ===== src/Adcs/Havt.antt =====
-- The table of available devices: src/adcs/havt.cpp, and `update_havt` of src/adcs/main.cpp. The devices are
-- behind the interface of src/adcs/dev/Device.hpp. `isr k` are the messages that come in at the k-th
-- place between two reads or writes of the registers.
pub mod Commands
use flight_software.Base.{ℕ, zero, suc, ◌≡◌, Bool, false, ◌==◌, if◌then◌else◌, List, [], ◌∷◌}
use flight_software.Floats.{FloatArith}
use flight_software.Adcs.Registers.{Registers, updated, outdated}
use flight_software.Adcs.Receive.{receive_all}
use flight_software.Adcs.Bitset.{to_ulong, of_ulong}

-- The virtual functions of a device.
pub record DeviceOps (D : Type 0) : Type 0 where
  pub is_functional : D → Bool
  pub reset : D → D
  pub disable : D → D

-- A device that is disabled is not functional.
pub record DisableLaw (D : Type 0) ⦃d : DeviceOps D⦄ : Type 0 where
  pub is_functional-disable : (x : D) → d.is_functional (d.disable x) ≡ false

module _ {D : Type 0} ⦃d : DeviceOps D⦄ where
  -- `update_read_table`: a bit for each device, and zeros.
  unfoldable pub update_read_table : ℕ → List D → List Bool
  update_read_table zero devices = []
  update_read_table (suc n) [] = false ∷ update_read_table n []
  update_read_table (suc n) (x ∷ devices) = d.is_functional x ∷ update_read_table n devices

  -- The loops over the devices.
  unfoldable pub execute_cmd_reset_table : List Bool → List D → List D
  execute_cmd_reset_table table [] = []
  execute_cmd_reset_table [] (x ∷ devices) = x ∷ devices
  execute_cmd_reset_table (bit ∷ table) (x ∷ devices) =
      (if bit then d.reset x else x) ∷ execute_cmd_reset_table table devices

  unfoldable pub execute_cmd_disable_table : List Bool → List D → List D
  execute_cmd_disable_table table [] = []
  execute_cmd_disable_table [] (x ∷ devices) = x ∷ devices
  execute_cmd_disable_table (bit ∷ table) (x ∷ devices) =
      (if bit then d.disable x else x) ∷ execute_cmd_disable_table table devices

  module _ {Float : Type 0} ⦃o : FloatArith Float⦄ (absent : ℕ) (isr : ℕ → List (List ℕ)) where
    -- The reset command: the flag is tested and cleared, the table is copied, and the flag is looked
    -- at again.
    unfoldable pub handle_reset : List D → Registers Float → List D × Registers Float
    handle_reset devices r =
        let r₁ = receive_all absent (isr 0) r in
        let r₂ = receive_all absent (isr 1) r₁ in
        let r₃ = record r₂ { havt = record r₂.havt { cmd_reset_flg = outdated } } in
        let r₄ = receive_all absent (isr 2) r₃ in
        let r₅ = receive_all absent (isr 3) r₄ in
        if r₁.havt.cmd_reset_flg == updated
        then (
          if r₅.havt.cmd_reset_flg == outdated
              then execute_cmd_reset_table (of_ulong 32 r₄.havt.cmd_reset_table) devices
              else devices,
          r₅,
        )
        else (devices, r₁)

    unfoldable pub handle_disable : List D → Registers Float → List D × Registers Float
    handle_disable devices r =
        let r₁ = receive_all absent (isr 4) r in
        let r₂ = receive_all absent (isr 5) r₁ in
        let r₃ = record r₂ { havt = record r₂.havt { cmd_disable_flg = outdated } } in
        let r₄ = receive_all absent (isr 6) r₃ in
        let r₅ = receive_all absent (isr 7) r₄ in
        if r₁.havt.cmd_disable_flg == updated
        then (
          if r₅.havt.cmd_disable_flg == outdated
              then execute_cmd_disable_table (of_ulong 32 r₄.havt.cmd_disable_table) devices
              else devices,
          r₅,
        )
        else (devices, r₁)

    unfoldable pub update_havt : List D → Registers Float → List D × Registers Float
    update_havt devices r =
        let r₁ = record r {
          havt = record r.havt { read_table = to_ulong (update_read_table 32 devices) };
        } in
        let done = handle_reset devices r₁ in handle_disable done.0 done.1
