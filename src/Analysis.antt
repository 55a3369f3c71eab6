-- ===== src/Analysis.antt =====
-- internal/analysis/engine.go, a module for each part.
pub mod Line
pub mod Timestamp
pub mod Entry
pub mod Scanner
pub mod Engine
pub mod Accounting
pub mod Bounds
pub mod RoundTrip
