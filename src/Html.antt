-- ===== src/Html.antt =====
-- The namespace Html.
pub mod InputStreamPreprocessor
