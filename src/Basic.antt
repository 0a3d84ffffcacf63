-- ===== src/Basic.antt =====
-- The namespace Basic: streams, encodings, numbers, frames.
pub mod Utf8
pub mod Numbers
pub mod TextSanitizer
pub mod Frame
pub mod NumberFrame
pub mod MemoryRange
pub mod Uri
