-- ===== src/Binary.antt =====
-- pkg/binary: the encoder of marshaler.go and the decoder of unmarshaler.go.
pub mod Words
pub mod Marshaler
pub mod Reader
pub mod Unmarshaler
pub mod RoundTrip
pub mod Shrinking
