-- ===== src/Summary.antt =====
-- internal/summary/summary.go. Counters count records that memory holds, one by one, so they stay far
-- below 2^63 and are natural numbers.
pub mod Rank
pub mod Counts
pub mod Tally
pub mod Compute
pub mod Ranking
