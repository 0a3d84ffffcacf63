-- ===== src/Http.antt =====
-- The namespace Http.
pub mod UrlDecoder
pub mod Characters
pub mod HeadersFrame
pub mod LengthBodyFrame
pub mod BodyFrame
pub mod BodyChunksFrame
