-- ===== src/Adcs/Loop/Atomic.antt =====
-- What `update_mtr` and `update_rwa` of src/adcs/main.cpp actuate when messages interrupt them.
use flight_software.Base.{
  ℕ, ◌≡◌, refl, sym, subst, true, false, ◌&&◌, ◌==◌, ◌⊎◌, inl, inr, Bool-cases, Option, none, some,
  List, arith,
}
use flight_software.Floats.{FloatArith}
use flight_software.Adcs.Registers.{Registers, Vector, adcs_active, updated, outdated}
use flight_software.Adcs.Receive.{receive_all}
use flight_software.Adcs.Wheels.{WheelReads, WheelSensors}
use flight_software.Adcs.Loop.{
  MtrActuation, RwaActuation, outdate_mtr, outdate_rwa, finish_mtr, copy_mtr, update_mtr, copy_rwa,
  update_rwa,
}
use flight_software.Adcs.Loop.Interrupts.{
  Step, Step-trans, Step-waiting, Steps-clear, Steps-new, mtr_flag, mtr_cmd, rwa_flag, rwa_cmd,
  receive_all-mtr, receive_all-rwa,
}

module _ {Float : Type 0} where
  -- What a pass may have done, from the registers as the flag was cleared: nothing, with the flag
  -- set by a message, or the actuation of their command.
  abbrev pub MtrOutcome : Registers Float → Option (MtrActuation Float) × Registers Float → Type 0
  MtrOutcome r n =
      ((n.0 ≡ none) × (n.1.mtr.cmd_flg ≡ updated))
      ⊎ ((a : MtrActuation Float) × (n.0 ≡ some a)
          × (a.mtr_cmd ≡ r.mtr.cmd)
          × Step mtr_flag mtr_cmd r n.1)

  abbrev pub RwaOutcome : Registers Float → Option (RwaActuation Float) × Registers Float → Type 0
  RwaOutcome r n =
      ((n.0 ≡ none) × (n.1.rwa.cmd_flg ≡ updated))
      ⊎ ((a : RwaActuation Float) × (n.0 ≡ some a)
          × (a.rwa_cmd ≡ r.rwa.cmd)
          × Step rwa_flag rwa_cmd r n.1)

  -- A copy made one component at a time from equal vectors.
  copied :
      (v v₃ v₄ v₅ : Vector Float)
      → v₃ ≡ v
      → v₄ ≡ v
      → v₅ ≡ v
      → let copy : Vector Float = record { x = v₃.x; y = v₄.y; z = v₅.z } in copy ≡ v
  copied v v₃ v₄ v₅ e₃ e₄ e₅ = rw (e₃, e₄, e₅) refl

outdate_mtr_flag :
    {Float : Type 0} ⦃o : FloatArith Float⦄
    → (r : Registers Float) → (outdate_mtr r).mtr.cmd_flg ≡ outdated
unfolding outdate_mtr
outdate_mtr_flag r = refl

outdate_rwa_flag :
    {Float : Type 0} ⦃o : FloatArith Float⦄
    → (r : Registers Float) → (outdate_rwa r).rwa.cmd_flg ≡ outdated
unfolding outdate_rwa
outdate_rwa_flag r = refl

module _ {Float : Type 0} ⦃o : FloatArith Float⦄ (absent : ℕ) (isr : ℕ → List (List ℕ)) where
  finish_mtr_outcome :
      (mode : ℕ) (v : Vector Float) (r : Registers Float)
      → (r.mtr.cmd_flg == outdated) ≡ true
      → finish_mtr absent isr mode v r ≡ (
        some (record {
          mtr_mode = mode;
          mtr_cmd = v;
          moment_limit = (receive_all absent (isr 7) r).mtr.moment_limit;
        }),
        receive_all absent (isr 7) r,
      )
  unfolding finish_mtr
  finish_mtr_outcome mode v r clear = rw clear

  finish_mtr_none :
      (mode : ℕ) (v : Vector Float) (r : Registers Float)
      → (r.mtr.cmd_flg == outdated) ≡ false
      → finish_mtr absent isr mode v r ≡ (none, r)
  unfolding finish_mtr
  finish_mtr_none mode v r new = rw new

  copy_mtr_outcome :
      (r : Registers Float) → r.mtr.cmd_flg ≡ outdated → MtrOutcome r (copy_mtr absent isr r)
  unfolding copy_mtr
  copy_mtr_outcome r clear = elim (Bool-cases (r₆.mtr.cmd_flg == outdated)) [
    | inl still ↦
        let k : (r₃.mtr.cmd ≡ r.mtr.cmd)
            × (r₄.mtr.cmd ≡ r.mtr.cmd)
            × (r₅.mtr.cmd ≡ r.mtr.cmd)
            × (r₆.mtr.cmd ≡ r.mtr.cmd) =
          Steps-clear mtr_flag mtr_cmd r r₂ r₃ r₄ r₅ r₆ s₂ s₃ s₄ s₅ s₆ (ground arith) in
        subst (λ n. MtrOutcome r n) (sym (finish_mtr_outcome r₂.mtr.mode v r₆ still))
          (inr (
            record {
              mtr_mode = r₂.mtr.mode;
              mtr_cmd = v;
              moment_limit = (receive_all absent (isr 7) r₆).mtr.moment_limit;
            },
            refl,
            copied r.mtr.cmd r₃.mtr.cmd r₄.mtr.cmd r₅.mtr.cmd k.0 k.1 k.2,
            Step-trans mtr_flag mtr_cmd r r₆ (receive_all absent (isr 7) r₆)
                (inr (ground arith, k.3)) (receive_all-mtr absent (isr 7) r₆),
          ))
    | inr new ↦
        subst (λ n. MtrOutcome r n) (sym (finish_mtr_none r₂.mtr.mode v r₆ new))
          (inl (refl, Steps-new mtr_flag mtr_cmd r r₂ r₃ r₄ r₅ r₆ s₂ s₃ s₄ s₅ s₆ clear new))
  ]
    where
      r₂ : Registers Float
      r₂ = receive_all absent (isr 2) r

      r₃ : Registers Float
      r₃ = receive_all absent (isr 3) r₂

      r₄ : Registers Float
      r₄ = receive_all absent (isr 4) r₃

      r₅ : Registers Float
      r₅ = receive_all absent (isr 5) r₄

      r₆ : Registers Float
      r₆ = receive_all absent (isr 6) r₅

      v : Vector Float
      v = record { x = r₃.mtr.cmd.x; y = r₄.mtr.cmd.y; z = r₅.mtr.cmd.z }

      s₂ : Step mtr_flag mtr_cmd r r₂
      s₂ = receive_all-mtr absent (isr 2) r

      s₃ : Step mtr_flag mtr_cmd r₂ r₃
      s₃ = receive_all-mtr absent (isr 3) r₂

      s₄ : Step mtr_flag mtr_cmd r₃ r₄
      s₄ = receive_all-mtr absent (isr 4) r₃

      s₅ : Step mtr_flag mtr_cmd r₄ r₅
      s₅ = receive_all-mtr absent (isr 5) r₄

      s₆ : Step mtr_flag mtr_cmd r₅ r₆
      s₆ = receive_all-mtr absent (isr 6) r₅

  -- With the ADCS active and a command waiting, `update_mtr` makes a copy that no message tears: it
  -- actuates the command that stood in the registers when it cleared the flag, and then the flag is
  -- set again or the registers still have that command, or it actuates nothing and leaves the flag
  -- set for the next pass. Whatever messages come in between its reads and writes.
  pub update_mtr_atomic :
      (r : Registers Float)
      → r.mode ≡ adcs_active
      → r.mtr.cmd_flg ≡ updated
      → MtrOutcome
          (outdate_mtr (receive_all absent (isr 1) (receive_all absent (isr 0) r)))
          (update_mtr absent isr r)
  unfolding update_mtr
  update_mtr_atomic r active waiting =
      subst (MtrOutcome (outdate_mtr c)) (sym goes_on)
        (copy_mtr_outcome (outdate_mtr c) (outdate_mtr_flag c))
    where
      c : Registers Float
      c = receive_all absent (isr 1) (receive_all absent (isr 0) r)

      still : (receive_all absent (isr 0) r).mtr.cmd_flg ≡ updated
      still =
          Step-waiting mtr_flag mtr_cmd r (receive_all absent (isr 0) r)
            (receive_all-mtr absent (isr 0) r) waiting

      goes_on : update_mtr absent isr r ≡ copy_mtr absent isr (outdate_mtr c)
      goes_on = ground (arith, active, still)

  -- A passive ADCS, and one without a new command, actuates nothing.
  pub update_mtr_idle :
      (r : Registers Float)
      → (r.mode == adcs_active) && ((receive_all absent (isr 0) r).mtr.cmd_flg == updated) ≡ false
      → (update_mtr absent isr r).0 ≡ none
  unfolding update_mtr
  update_mtr_idle r idle = ground arith

  copy_rwa_outcome :
      (r : Registers Float) → r.rwa.cmd_flg ≡ outdated → RwaOutcome r (copy_rwa absent isr r)
  unfolding copy_rwa
  copy_rwa_outcome r clear = elim (Bool-cases (r₆.rwa.cmd_flg == outdated)) [
    | inl still ↦
        let k : (r₃.rwa.cmd ≡ r.rwa.cmd)
            × (r₄.rwa.cmd ≡ r.rwa.cmd)
            × (r₅.rwa.cmd ≡ r.rwa.cmd)
            × (r₆.rwa.cmd ≡ r.rwa.cmd) =
          Steps-clear rwa_flag rwa_cmd r r₂ r₃ r₄ r₅ r₆ s₂ s₃ s₄ s₅ s₆ (ground arith) in
        inr (
          record { rwa_mode = r₂.rwa.mode; rwa_cmd = v },
          rw still,
          copied r.rwa.cmd r₃.rwa.cmd r₄.rwa.cmd r₅.rwa.cmd k.0 k.1 k.2,
          inr (ground arith, k.3),
        )
    | inr new ↦ inl (rw new, Steps-new rwa_flag rwa_cmd r r₂ r₃ r₄ r₅ r₆ s₂ s₃ s₄ s₅ s₆ clear new)
  ]
    where
      r₂ : Registers Float
      r₂ = receive_all absent (isr 2) r

      r₃ : Registers Float
      r₃ = receive_all absent (isr 3) r₂

      r₄ : Registers Float
      r₄ = receive_all absent (isr 4) r₃

      r₅ : Registers Float
      r₅ = receive_all absent (isr 5) r₄

      r₆ : Registers Float
      r₆ = receive_all absent (isr 6) r₅

      v : Vector Float
      v = record { x = r₃.rwa.cmd.x; y = r₄.rwa.cmd.y; z = r₅.rwa.cmd.z }

      s₂ : Step rwa_flag rwa_cmd r r₂
      s₂ = receive_all-rwa absent (isr 2) r

      s₃ : Step rwa_flag rwa_cmd r₂ r₃
      s₃ = receive_all-rwa absent (isr 3) r₂

      s₄ : Step rwa_flag rwa_cmd r₃ r₄
      s₄ = receive_all-rwa absent (isr 4) r₃

      s₅ : Step rwa_flag rwa_cmd r₄ r₅
      s₅ = receive_all-rwa absent (isr 5) r₄

      s₆ : Step rwa_flag rwa_cmd r₅ r₆
      s₆ = receive_all-rwa absent (isr 6) r₅

  -- The same of `update_rwa` up to its actuation. The readings that follow are copied with the
  -- interrupts off.
  pub update_rwa_atomic :
      (rwa_to_body : Vector Float → Vector Float) (reads : WheelReads) (s : WheelSensors Float)
      (r : Registers Float)
      → r.mode ≡ adcs_active
      → r.rwa.cmd_flg ≡ updated
      → let c = outdate_rwa (receive_all absent (isr 1) (receive_all absent (isr 0) r)) in
        ((update_rwa absent isr rwa_to_body reads s r).0 ≡ (copy_rwa absent isr c).0)
        × RwaOutcome c (copy_rwa absent isr c)
  unfolding update_rwa
  update_rwa_atomic rwa_to_body reads s r active waiting =
      (ground (arith, active, still), copy_rwa_outcome (outdate_rwa c) (outdate_rwa_flag c))
    where
      c : Registers Float
      c = receive_all absent (isr 1) (receive_all absent (isr 0) r)

      still : (receive_all absent (isr 0) r).rwa.cmd_flg ≡ updated
      still =
          Step-waiting rwa_flag rwa_cmd r (receive_all absent (isr 0) r)
            (receive_all-rwa absent (isr 0) r) waiting
