-- ===== src/Devices/Gomspace.antt =====
-- The controller of the power supply, src/fsw/FCCode/GomspaceController.cpp. What it asks of the driver
-- is a list of calls, in order, and what the driver reads from the device is an argument.
pub mod Cycling
use flight_software.Base.{
  ℕ, ◌+◌, ◌%◌, Bool, true, false, not, ◌&&◌, ◌||◌, ltb, ◌==◌, if◌then◌else◌, List, [], ◌∷◌, ◌++◌,
}
use flight_software.Fault.{Fault, evaluate}

pub data Call : Type 0 where
  set_single_output : ℕ → ℕ → Call
  set_pv_volt : ℕ → ℕ → ℕ → Call
  set_ppt_mode : ℕ → Call
  turn_on_heater turn_off_heater reset_counters hard_reset reboot : Call

-- Something for each of the outputs, or of the solar inputs.
pub record Six {ℓ} (A : Type ℓ) : Type ℓ where
  pub first : A
  pub second : A
  pub third : A
  pub fourth : A
  pub fifth : A
  pub sixth : A

pub record Three {ℓ} (A : Type ℓ) : Type ℓ where
  pub first : A
  pub second : A
  pub third : A

abbrev pub all_six {ℓ} : {A : Type ℓ} → A → Six A
all_six x = record { first = x; second = x; third = x; fourth = x; fifth = x; sixth = x }

-- The housekeeping data of the device, a temperature as its two's complement.
pub record Housekeeping : Type 0 where
  pub vboost : Three ℕ
  pub vbatt : ℕ
  pub curin : Three ℕ
  pub cursun : ℕ
  pub cursys : ℕ
  pub curout : Six ℕ
  pub output : Six Bool
  pub wdt_i2c_time_left : ℕ
  pub counter_wdt_i2c : ℕ
  pub counter_boot : ℕ
  pub temp : List ℕ
  pub bootcause : ℕ
  pub battmode : ℕ
  pub pptmode : ℕ

-- What is read in a cycle: whether get_hk succeeds, the data behind it, and the heater before and after
-- the commands.
pub record Readout : Type 0 where
  pub got_hk : Bool
  pub hk : Housekeeping
  pub heater_before : ℕ
  pub heater_after : ℕ

pub record GomspaceController : Type 0 where
  pub get_hk_fault : Fault
  pub low_batt_fault : Fault
  pub batt_threshold : ℕ
  pub hk : Housekeeping
  pub heater : Bool
  pub period : ℕ
  pub power_cycle_cmd : Six Bool
  pub pv_output_cmd : Three ℕ
  pub ppt_mode_cmd : ℕ
  pub heater_cmd : Bool
  pub counter_reset_cmd : Bool
  pub gs_reset_cmd : Bool
  pub gs_reboot_cmd : Bool
  pub piksi_off : Bool

-- `powercycle_logic`: the calls, and the command afterwards.
unfoldable pub powercycle_logic : Bool → Bool → ℕ → List Call × Bool
powercycle_logic cmd output idx =
    if cmd
    then (if output
        then (Call.set_single_output idx 0 ∷ [], cmd)
        else (Call.set_single_output idx 1 ∷ [], false))
    else ([], cmd)

unfoldable pub power_cycle_outputs : GomspaceController → List Call × GomspaceController
power_cycle_outputs c =
    let out = c.hk.output in
    let cmd = c.power_cycle_cmd in
    let r₁ = if not c.piksi_off then powercycle_logic cmd.first out.first 0 else ([], cmd.first) in
    let r₂ = powercycle_logic cmd.second out.second 1 in
    let r₃ = powercycle_logic cmd.third out.third 2 in
    let r₄ = powercycle_logic cmd.fourth out.fourth 3 in
    let r₅ = powercycle_logic cmd.fifth out.fifth 4 in
    let r₆ = powercycle_logic cmd.sixth out.sixth 5 in
    (
      r₁.0 ++ r₂.0 ++ r₃.0 ++ r₄.0 ++ r₅.0 ++ r₆.0,
      record c {
        power_cycle_cmd = record {
          first = r₁.1;
          second = r₂.1;
          third = r₃.1;
          fourth = r₄.1;
          fifth = r₅.1;
          sixth = r₆.1;
        };
      },
    )

-- The commands in the first cycle.
unfoldable pub adopt : Readout → GomspaceController → GomspaceController
adopt r c = record c {
  power_cycle_cmd = all_six false;
  pv_output_cmd = r.hk.vboost;
  heater_cmd = not (r.heater_before == 0);
  counter_reset_cmd = false;
  gs_reset_cmd = false;
  gs_reboot_cmd = false;
}

abbrev pub differs : Three ℕ → Three ℕ → Bool
differs a b = not (a.first == b.first) || not (a.second == b.second) || not (a.third == b.third)

-- The voltages, the mode of the power point tracking and the heater.
unfoldable pub command_power : Readout → GomspaceController → List Call
command_power r c =
    let volts =
      if c.hk.pptmode == 2
      then (if differs c.hk.vboost c.pv_output_cmd
          then Call.set_pv_volt c.pv_output_cmd.first c.pv_output_cmd.second c.pv_output_cmd.third
            ∷ []
          else [])
      else [] in
    let mode =
      if not (c.hk.pptmode == c.ppt_mode_cmd) then Call.set_ppt_mode c.ppt_mode_cmd ∷ [] else [] in
    let heat =
      if c.heater_cmd && (r.heater_before == 0)
      then Call.turn_on_heater ∷ []
      else if not c.heater_cmd && (r.heater_before == 1)
      then Call.turn_off_heater ∷ []
      else [] in
    volts ++ mode ++ heat

abbrev pub when : Bool → Call → List Call
when b call = if b then call ∷ [] else []

unfoldable pub command_resets : GomspaceController → List Call × GomspaceController
command_resets c = (
  when c.counter_reset_cmd Call.reset_counters
      ++ when c.gs_reset_cmd Call.hard_reset
      ++ when c.gs_reboot_cmd Call.reboot,
  record c { counter_reset_cmd = false; gs_reset_cmd = false; gs_reboot_cmd = false },
)

-- The faults at the start of `execute`. The voltage is that of the cycle before.
unfoldable pub check_faults : ℕ → Readout → GomspaceController → GomspaceController
unfolding evaluate
check_faults cc r c = record c {
  get_hk_fault = evaluate cc (not r.got_hk) c.get_hk_fault;
  low_batt_fault = evaluate cc (ltb c.hk.vbatt c.batt_threshold) c.low_batt_fault;
}

-- The calls of a cycle, and the controller behind it.
unfoldable pub execute : ℕ → Readout → GomspaceController → List Call × GomspaceController
execute cc r c =
    let c₁ = check_faults cc r c in
    let c₂ = if cc == 1 then adopt r c₁ else c₁ in
    let cycled = if cc % c₂.period == 0 then power_cycle_outputs c₂ else ([], c₂) in
    let power = command_power r cycled.1 in
    let resets = command_resets cycled.1 in
    (
      cycled.0 ++ power ++ resets.0 ++ when c.piksi_off (Call.set_single_output 0 0),
      record resets.1 { hk = r.hk; heater = r.heater_after == 1 },
    )
