-- ===== src/Downlink/Headers.antt =====
-- Where src/fsw/FCCode/DownlinkProducer.cpp writes, and the headers of its packets.
use flight_software.Base.{
  ℕ, zero, suc, ◌+◌, ◌-◌, ◌*◌, ◌/◌, ◌≤◌, ◌<◌, ◌≡◌, refl, ap, ◌∙◌, Bool, false, ◌==◌, ltb, leb, ◌&&◌,
  if◌then◌else◌, arith, inl, inr, ◌⊎◌,
}
use flight_software.Downlink.{
  BitArray, Frame, set_bit, to_string, split_field, add_bits_to_downlink_frame,
}

to_string_bit :
    (n i : ℕ) (bits : ℕ → Bool) (offset : ℕ) (snapshot : ℕ → Bool) (p : ℕ)
    → to_string n i bits offset snapshot p
      ≡ (if leb offset p && ltb p (offset + n) then bits (i + (p - offset)) else snapshot p)
unfolding to_string
to_string_bit zero i bits offset snapshot p = ground arith
to_string_bit (suc n) i bits offset snapshot p =
    ground (arith, to_string_bit n (i + 1) bits (offset + 1) (set_bit offset (bits i) snapshot) p)

-- The frame's offset counts whole packets and the bits of the current one, which has its header.
pub record IsAligned (k : ℕ) (f : Frame) : Type 0 where
  pub aligned : f.downlink_frame_offset ≡ 560 * k + f.packet_offset
  pub within : f.packet_offset ≤ 560
  pub header : 1 ≤ f.packet_offset

pub add_bits-contiguous :
    (k : ℕ) (field : BitArray) (f : Frame)
    → IsAligned k f
    → field.size + f.packet_offset ≤ 560
    → IsAligned k (add_bits_to_downlink_frame field f)
unfolding add_bits_to_downlink_frame
add_bits-contiguous k field f h fits = record {
  aligned = ground (arith, h.aligned, fits);
  within = ground (arith, fits);
  header = ground (arith, h.header, fits);
}

pub add_bits-split :
    (k : ℕ) (field : BitArray) (f : Frame)
    → IsAligned k f
    → field.size < 560
    → 560 < field.size + f.packet_offset
    → IsAligned (k + 1) (add_bits_to_downlink_frame field f)
unfolding add_bits_to_downlink_frame
add_bits-split k field f h small over = record {
  aligned = ground (arith, h.aligned, h.within, over);
  within = ground (arith, h.within, small, over);
  header = ground (arith, over);
}

split-writes :
    (k x v offset start p : ℕ) (bits snapshot : ℕ → Bool)
    → offset ≡ 560 * (k + 1)
    → offset ≡ start + x
    → p ≤ offset
    → (p ≡ 64 * (k + 1)) ⊎ (p ≡ offset)
    → to_string v x bits
        (offset + 1)
        (set_bit (8 * (offset / 70)) false (to_string x 0 bits start snapshot))
        p
      ≡ (if p == 64 * (k + 1) then false else snapshot p)
split-writes k x v offset start p bits snapshot here before le which =
    to_string_bit v x bits (offset + 1)
      (set_bit (8 * (offset / 70)) false (to_string x 0 bits start snapshot)) p
    ∙ ground (arith, here, before, le, which, to_string_bit x 0 bits start snapshot p)

pub add_bits-split_lem :
    (field : BitArray) (f : Frame)
    → 560 < field.size + f.packet_offset
    → add_bits_to_downlink_frame field f ≡ split_field field f
unfolding add_bits_to_downlink_frame
add_bits-split_lem field f over = rw (beyond, add_bits_to_downlink_frame) refl
  where
    beyond : leb (field.size + f.packet_offset) 560 ≡ false
    beyond = ground (arith, over)

split_field_bit :
    (k : ℕ) (field : BitArray) (f : Frame) (p : ℕ)
    → IsAligned k f
    → field.size < 560
    → 560 < field.size + f.packet_offset
    → (p ≡ 64 * (k + 1)) ⊎ (p ≡ 560 * (k + 1))
    → (split_field field f).snapshot p ≡ (if p == 64 * (k + 1) then false else f.snapshot p)
unfolding split_field
split_field_bit k field f p h small over which =
    split-writes k x overflow (f.downlink_frame_offset + x) f.downlink_frame_offset p field.bits
      f.snapshot here refl (omega (arith, here, which)) (omega (arith, here, which))
  where
    overflow : ℕ
    overflow = field.size + f.packet_offset - 560

    x : ℕ
    x = field.size - overflow

    here : f.downlink_frame_offset + x ≡ 560 * (k + 1)
    here = omega (arith, h.aligned, h.within, over)

-- A field of fewer than 560 bits that runs into a new packet does not write the new packet's first
-- bit, which keeps what the snapshot had there; in its place the bit 64 * (k + 1) of the frame is
-- cleared, where k packets precede the current one.
pub new_packet_header :
    (k : ℕ) (field : BitArray) (f : Frame)
    → IsAligned k f
    → field.size < 560
    → 560 < field.size + f.packet_offset
    → ((add_bits_to_downlink_frame field f).snapshot (560 * (k + 1)) ≡ f.snapshot (560 * (k + 1)))
      × ((add_bits_to_downlink_frame field f).snapshot (64 * (k + 1)) ≡ false)
new_packet_header k field f h small over = (
  ap (λ (g : Frame). g.snapshot (560 * (k + 1))) (add_bits-split_lem field f over)
      ∙ split_field_bit k field f (560 * (k + 1)) h small over (inr refl)
      ∙ other,
  ap (λ (g : Frame). g.snapshot (64 * (k + 1))) (add_bits-split_lem field f over)
      ∙ split_field_bit k field f (64 * (k + 1)) h small over (inl refl)
      ∙ same,
)
  where
    other :
        (if 560 * (k + 1) == 64 * (k + 1) then false else f.snapshot (560 * (k + 1)))
        ≡ f.snapshot (560 * (k + 1))
    other = ground arith

    same : (if 64 * (k + 1) == 64 * (k + 1) then false else f.snapshot (64 * (k + 1))) ≡ false
    same = ground arith
