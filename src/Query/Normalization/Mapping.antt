-- ===== src/Query/Normalization/Mapping.antt =====
-- The map from the bytes of the normalized query to those of the original
-- (src/query_processing/normalization.rs).
pub mod Chars
pub mod Boundaries
pub mod Normalized
