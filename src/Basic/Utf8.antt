-- ===== src/Basic/Utf8.antt =====
-- Basic.Utf8Decoder.cpp and Basic.Utf8Encoder.cpp. A destination stream is the list of what has
-- been written to it.
pub mod Decoder
pub mod Encoder
pub mod Scalar
pub mod Strict
pub mod RoundTrip
mod Runs
