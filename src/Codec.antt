-- ===== src/Codec.antt =====
-- Bits and how values become bits.
pub mod Memory
pub mod Bitstream
pub mod Reading
pub mod Sequence
pub mod Whole
pub mod Bits
pub mod BitArray
pub mod Integer
pub mod Editing
pub mod RoundTrip
