-- ===== src/Gzip.antt =====
-- The namespace Gzip.
pub mod Bits
pub mod Huffman
pub mod Deflate
mod Runs
