-- ===== src/Index.antt =====
-- src/index: the indexes that queries are pushed down to.
pub mod Property
pub mod Analyzer
pub mod Ranking
pub mod Totals
pub mod FullText
pub mod Vector
