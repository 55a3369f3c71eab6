-- ===== src/Bench.antt =====
-- internal/bench: the comparison of two implementations on the same input.
pub mod Types
pub mod Parity
pub mod Fields
pub mod Agreement
pub mod Controls
pub mod Rounds
pub mod Keys
pub mod Evidence
pub mod Claims
pub mod CrossCheck
pub mod CrossChecks
pub mod Capped
pub mod Placeholders
pub mod Expansions
pub mod Corpus
pub mod SameLog
