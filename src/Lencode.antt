-- ===== src/Lencode.antt =====
-- internal/lencode/lencode.go: messages with a separator and a length byte in front.
pub mod Encoder
pub mod Decoder
pub mod RoundTrip
pub mod Faults
