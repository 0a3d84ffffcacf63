-- ===== src/Json.antt =====
-- The namespace Json.
pub mod Tokens
pub mod Values
pub mod Script
pub mod Frames
pub mod Text
pub mod Tokenizer
pub mod Documents
pub mod Runs
