-- ===== src/Query.antt =====
-- Query processing (src/query_processing).
pub mod Profile
pub mod Segmenter
pub mod Normalization
pub mod Segments
pub mod Intent
pub mod Plan
