-- ===== src/Json/Tokenizer.antt =====
-- class Tokenizer (Json.Tokenizer.h, Json.Tokenizer.cpp).
pub mod State
pub mod Texts
pub mod Numbers
pub mod Machine
pub mod Steps
pub mod Strings
pub mod Digits
pub mod Depth
pub mod Enough
pub mod Numerals
pub mod Lexing
pub mod CharacterCodes
pub mod Escapes
