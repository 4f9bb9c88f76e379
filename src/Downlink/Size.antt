-- ===== src/Downlink/Size.antt =====
-- The frame of src/fsw/FCCode/DownlinkProducer.cpp against the size that compute_downlink_size gives.
use flight_software.Base.{
  ℕ, ◌+◌, ◌-◌, ◌*◌, ◌/◌, ◌≤◌, ◌<◌, ◌≡◌, refl, subst, Bool, true, false, ◌||◌, leb, ◌==◌, inl, inr,
  if◌then◌else◌, List, [], ◌∷◌, arith, Bool-cases, ◌⊎◌,
}
use flight_software.Downlink.{
  BitArray, Flow, Frame, add_bits_to_downlink_frame, add_fields, add_flows, fill_last, produce,
}
use flight_software.Downlink.Flows.{fields_size, get_packet_size, flows_size, compute_downlink_size}
use flight_software.Downlink.Headers.{IsAligned, add_bits-contiguous, add_bits-split}

-- The frame holds so many bits, and a header for each packet begun.
record IsCounted (bits : ℕ) (f : Frame) : Type 0 where
  packets : ℕ
  aligned : IsAligned packets f
  total : f.downlink_frame_offset ≡ bits + 1 + packets
  begun : (packets ≡ 0) ⊎ (559 * packets < bits)

-- Each bit array is smaller than a packet.
unfoldable pub AreSmall : List BitArray → Type 0
AreSmall [] = 0 ≤ 0
AreSmall (field ∷ fields) = (field.size < 560) × AreSmall fields

unfoldable pub FlowsAreSmall : List Flow → Type 0
FlowsAreSmall [] = 0 ≤ 0
FlowsAreSmall (flow ∷ flows) =
    (flow.id_bits.size < 560) × AreSmall flow.field_list × FlowsAreSmall flows

offset-add_bits :
    (field : BitArray) (f : Frame)
    → f.packet_offset ≤ 560
    → (add_bits_to_downlink_frame field f).downlink_frame_offset ≡ (
        if leb (field.size + f.packet_offset) 560
        then f.downlink_frame_offset + field.size
        else f.downlink_frame_offset + field.size + 1)
unfolding add_bits_to_downlink_frame
offset-add_bits field f within = ground (arith, within)

add_bits-IsCounted :
    (bits : ℕ) (field : BitArray) (f : Frame)
    → field.size < 560
    → IsCounted bits f
    → IsCounted (bits + field.size) (add_bits_to_downlink_frame field f)
add_bits-IsCounted bits field f small h =
    elim (Bool-cases (leb (field.size + f.packet_offset) 560)) [
      | inl fits ↦ record {
        packets = h.packets;
        aligned = add_bits-contiguous h.packets field f h.aligned (ground (arith, fits));
        total = ground (arith, offset-add_bits field f h.aligned.within, fits, h.total);
        begun = ground (arith, h.begun);
      }
      | inr over ↦ record {
        packets = h.packets + 1;
        aligned = add_bits-split h.packets field f h.aligned small (ground (arith, over));
        total = ground (arith, offset-add_bits field f h.aligned.within, over, h.total);
        begun = inr (ground (arith, over, h.total, h.aligned.aligned, h.aligned.within));
      }
    ]

add_fields-IsCounted :
    (bits : ℕ) (fields : List BitArray) (f : Frame)
    → AreSmall fields
    → IsCounted bits f
    → IsCounted (bits + fields_size fields) (add_fields fields f)
unfolding add_fields fields_size AreSmall
add_fields-IsCounted bits [] f small h = subst (λ k. IsCounted k f) (omega arith) h
add_fields-IsCounted bits (field ∷ fields) f small h =
    subst (λ k. IsCounted k (add_fields fields (add_bits_to_downlink_frame field f))) (omega arith)
      (add_fields-IsCounted (bits + field.size) fields (add_bits_to_downlink_frame field f) small.1
        (add_bits-IsCounted bits field f small.0 h))

add_flows-IsCounted :
    (bits : ℕ) (flows : List Flow) (f : Frame)
    → FlowsAreSmall flows
    → IsCounted bits f
    → IsCounted (bits + flows_size false flows) (add_flows flows f)
unfolding add_flows flows_size get_packet_size FlowsAreSmall
add_flows-IsCounted bits [] f small h = subst (λ k. IsCounted k f) (omega arith) h
add_flows-IsCounted bits (flow ∷ flows) f small h =
    subst (λ k. IsCounted k (add_flows (flow ∷ flows) f)) (omega arith)
      (add_flows-IsCounted (bits + (if flow.is_active || false then get_packet_size flow else 0))
        flows
        (if flow.is_active
          then add_fields flow.field_list (add_bits_to_downlink_frame flow.id_bits f)
          else f)
        small.2 (one flow.is_active))
  where
    one :
        (b : Bool)
        → IsCounted (bits + (if b || false then get_packet_size flow else 0)) (
            if b then add_fields flow.field_list (add_bits_to_downlink_frame flow.id_bits f) else f)
    one true =
        subst
          (λ k.
            IsCounted k (add_fields flow.field_list (add_bits_to_downlink_frame flow.id_bits f)))
          (omega arith)
          (add_fields-IsCounted (bits + flow.id_bits.size) flow.field_list
            (add_bits_to_downlink_frame flow.id_bits f) small.1
            (add_bits-IsCounted bits flow.id_bits f small.0 h))
    one false = subst (λ k. IsCounted k f) (omega arith) h

counted-fits :
    (bits offset k : ℕ)
    → offset ≡ bits + 1 + k
    → 560 * k < offset
    → offset ≤ 560 * k + 560
    → (k ≡ 0) ⊎ (559 * k < bits)
    → 32 ≤ bits
    → bits < 4480
    → offset ≤ 8 * ((bits + (bits + 559) / 560 + 7) / 8)
counted-fits bits offset k total low high begun some_bits small =
    omega (arith, total, low, high, begun, some_bits, small)

started-IsCounted :
    (snapshot : ℕ → Bool)
    → IsCounted 0 (record { snapshot = snapshot; packet_offset = 1; downlink_frame_offset = 1 })
started-IsCounted snapshot = record {
  packets = 0;
  aligned = record { aligned = omega arith; within = omega arith; header = omega arith };
  total = omega arith;
  begun = inl refl;
}

produced : (cycle_count : BitArray) (flows : List Flow) (snapshot : ℕ → Bool) → Frame
produced cycle_count flows snapshot = add_flows flows (
    add_bits_to_downlink_frame cycle_count
      (record { snapshot = snapshot; packet_offset = 1; downlink_frame_offset = 1 }))

produced-fits :
    (cycle_count : BitArray) (flows : List Flow) (snapshot : ℕ → Bool)
    → cycle_count.size ≡ 32
    → FlowsAreSmall flows
    → flows_size false flows + 32 < 4480
    → (produced cycle_count flows snapshot).downlink_frame_offset
      ≤ 8 * compute_downlink_size false flows
unfolding produced compute_downlink_size
produced-fits cycle_count flows snapshot word small few = fits (
    add_flows-IsCounted (0 + cycle_count.size) flows
      (add_bits_to_downlink_frame cycle_count
        (record { snapshot = snapshot; packet_offset = 1; downlink_frame_offset = 1 }))
      small
      (add_bits-IsCounted 0 cycle_count
        (record { snapshot = snapshot; packet_offset = 1; downlink_frame_offset = 1 })
        (omega (arith, word)) (started-IsCounted snapshot)))
  where
    fits :
        {f : Frame}
        → IsCounted (0 + cycle_count.size + flows_size false flows) f
        → f.downlink_frame_offset
          ≤ 8
            * ((flows_size false flows + 32 + (flows_size false flows + 32 + 560 - 1) / 560 + 7)
                / 8)
    fits {f} h = omega (
      arith,
      counted-fits (flows_size false flows + 32) f.downlink_frame_offset h.packets
          (omega (arith, h.total, word)) (omega (arith, h.aligned.aligned, h.aligned.header))
          (omega (arith, h.aligned.aligned, h.aligned.within)) (begun h.begun) (omega arith) few,
    )
      where
        begun :
            (h.packets ≡ 0) ⊎ (559 * h.packets < 0 + cycle_count.size + flows_size false flows)
            → (h.packets ≡ 0) ⊎ (559 * h.packets < flows_size false flows + 32)
        begun b = ground (arith, b, word)

-- The frame that `execute` writes fits in the size that it announces, if the control cycle count has 32
-- bits, each field and each flow's id are smaller than a packet, and the active flows and the count have
-- fewer than 4480 bits in all.
pub produce-compute_downlink_size :
    (cycle_count : BitArray) (flows : List Flow) (snapshot : ℕ → Bool)
    → cycle_count.size ≡ 32
    → FlowsAreSmall flows
    → flows_size false flows + 32 < 4480
    → (produce cycle_count flows snapshot).downlink_frame_offset
      ≤ 8 * compute_downlink_size false flows
unfolding produce fill_last produced
produce-compute_downlink_size cycle_count flows snapshot word small few =
    produced-fits cycle_count flows (λ q. if q == 8 * 0 then true else snapshot q) word small few
