-- ===== src/Query.antt =====
-- src/query: the builder of query plans, and the hybrid search over the indexes.
pub mod Plan
pub mod Builder
pub mod Search
pub mod Results
pub mod Filtered
pub mod Unfiltered
