-- ===== src/Examples/Tasks.antt =====
-- Docking, the power supply, events and the downlink at concrete inputs.
use flight_software.Base.{
  ◌≤◌, some, ℕ, zero, suc, ◌+◌, ◌*◌, ◌/◌, ◌≡◌, refl, Bool, true, false, List, [], ◌∷◌, arith,
}
use flight_software.Docking
use flight_software.Docking.{DockingSystem, DockingController}
use flight_software.Docking.Turn.{cycles, total, halfturn_lem}
use flight_software.Fault
use flight_software.Devices.Gomspace.{Housekeeping, Three, all_six, Readout, GomspaceController}
use flight_software.Events.{EventStorage}
use flight_software.Downlink.{BitArray, Flow, Frame, produce, add_bits_to_downlink_frame}
use flight_software.Downlink.Flows
use flight_software.Downlink.Flows.{
  flows_size, compute_downlink_size, toggle_flow, move, shift_flow_priorities, get_or-move,
}
use flight_software.Downlink.Size.{AreSmall, FlowsAreSmall, produce-compute_downlink_size}
use flight_software.Downlink.Headers.{IsAligned, new_packet_header}

-- Angles in thousandths of a degree.
abbrev halfturn_steps : ℕ → ℕ
halfturn_steps angle = 180000 / angle

abbrev undocked : DockingController ℕ
undocked = record {
  docksys = record {
    steps = 0;
    motor_on = false;
    motor_sleep_pin = false;
    motor_step_pin = false;
    timer = false;
    step_angle = 32;
    step_delay = 4000;
  };
  docking_config_cmd = true;
  docking_step_angle = 32;
  docking_step_delay = 4000;
  docked = false;
  dock_config = false;
  is_turning = false;
}

-- Cycles with 42 interrupts of the timer each.
abbrev of_cycles : ℕ → List (ℕ × Bool)
of_cycles zero = []
of_cycles (suc n) = (42, false) ∷ of_cycles n

-- The default half turn of 5625 steps takes 268 cycles.
halfturn_lem_example :
    let n = cycles halfturn_steps (of_cycles 268) (Docking.execute halfturn_steps false undocked) in
    (n.dock_config ≡ true) × (n.is_turning ≡ false)
unfolding total
halfturn_lem_example =
    halfturn_lem halfturn_steps false (of_cycles 268) undocked refl refl refl (omega arith)

abbrev three : ℕ → Three ℕ
three n = record { first = n; second = n; third = n }

abbrev housekeeping : Bool → Housekeeping
housekeeping on = record {
  vboost = three 4000;
  vbatt = 8000;
  curin = three 0;
  cursun = 0;
  cursys = 0;
  curout = all_six 0;
  output = all_six on;
  wdt_i2c_time_left = 0;
  counter_wdt_i2c = 0;
  counter_boot = 0;
  temp = [];
  bootcause = 0;
  battmode = 3;
  pptmode = 1;
}

abbrev readout : Readout
readout = record { got_hk = true; hk = housekeeping false; heater_before = 0; heater_after = 0 }

abbrev supply : GomspaceController
supply = record {
  get_hk_fault = Fault.new 1;
  low_batt_fault = Fault.new 1;
  batt_threshold = 7300;
  hk = housekeeping true;
  heater = false;
  period = 176;
  power_cycle_cmd = all_six true;
  pv_output_cmd = three 4000;
  ppt_mode_cmd = 1;
  heater_cmd = false;
  counter_reset_cmd = false;
  gs_reset_cmd = false;
  gs_reboot_cmd = false;
  piksi_off = true;
}

abbrev data_fields : List (List Bool)
data_fields = (true ∷ false ∷ []) ∷ (true ∷ []) ∷ []

abbrev storage : EventStorage
storage = record { sub_events = [] ∷ [] ∷ [] ∷ []; event_ptr = 2 }

-- A frame whose first packet has ten bits left, and a field of twenty.
abbrev nearly_full : Frame
nearly_full = record { snapshot = λ p. true; packet_offset = 550; downlink_frame_offset = 550 }

abbrev twenty : BitArray
twenty = record { size = 20; bits = λ i. true }

nearly_full-IsAligned : IsAligned 0 nearly_full
nearly_full-IsAligned = record { aligned = omega arith; within = omega arith; header = omega arith }

new_packet_header_example :
    ((add_bits_to_downlink_frame twenty nearly_full).snapshot (560 * (0 + 1))
      ≡ nearly_full.snapshot (560 * (0 + 1)))
    × ((add_bits_to_downlink_frame twenty nearly_full).snapshot (64 * (0 + 1)) ≡ false)
new_packet_header_example =
    new_packet_header 0 twenty nearly_full nearly_full-IsAligned (omega arith) (omega arith)

abbrev flow : ℕ → Flow
flow id = record { id = id; id_bits = twenty; is_active = true; field_list = twenty ∷ [] }

abbrev flows : List Flow
flows = flow 1 ∷ flow 2 ∷ flow 3 ∷ []

third_first : shift_flow_priorities (flow 0) 3 1 flows ≡ some (flow 3 ∷ flow 1 ∷ flow 2 ∷ [])
unfolding shift_flow_priorities Flows.find_index move Flows.move_front Flows.swap_next
third_first = refl

-- A request of the ground for the same, and to switch flow 2 off.
requests_done :
    Flows.handle_requests
      (flow 0)
      (record { shift_flows_id1 = 3; shift_flows_id2 = 1; toggle_flow_id = 2 })
      flows
    ≡ some (
      record { shift_flows_id1 = 0; shift_flows_id2 = 0; toggle_flow_id = 0 },
      flow 3 ∷ flow 1 ∷ (record (flow 2) { is_active = false }) ∷ [],
    )
unfolding Flows.handle_requests Flows.handle_shift Flows.handle_toggle Flows.toggle_flow
    Flows.toggle shift_flow_priorities Flows.find_index move Flows.move_front Flows.swap_next
requests_done = refl

abbrev cycle_count : BitArray
cycle_count = record { size = 32; bits = λ i. false }

flows-AreSmall : FlowsAreSmall flows
unfolding FlowsAreSmall AreSmall
flows-AreSmall =
    let flow_small : AreSmall (twenty ∷ []) = (omega arith, omega arith) in
    (omega arith, flow_small, (omega arith, flow_small, (omega arith, flow_small, omega arith)))

flows_bits : flows_size false flows ≡ 120
unfolding flows_size Flows.get_packet_size Flows.fields_size
flows_bits = refl

produce-compute_downlink_size_example :
    (produce cycle_count flows (λ p. false)).downlink_frame_offset
    ≤ 8 * compute_downlink_size false flows
produce-compute_downlink_size_example =
    produce-compute_downlink_size cycle_count flows (λ p. false) refl flows-AreSmall
      (omega (arith, flows_bits))
