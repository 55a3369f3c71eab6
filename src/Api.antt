-- ===== src/Api.antt =====
-- internal/api: the HTTP service over the job store, the engine and the summary.
pub mod Http
pub mod Space
pub mod Names
pub mod Filename
pub mod Handler
pub mod Jobs
pub mod Process
pub mod Submit
pub mod Detail
pub mod Expiry
pub mod Due
pub mod Forgetting
pub mod Works
pub mod Invariant
pub mod Lifecycle
pub mod Endings
pub mod Admitted
pub mod Upload
pub mod Admission
pub mod World
pub mod Answers
pub mod Found
pub mod Pool
pub mod Lifetimes
pub mod Started
pub mod Progress
pub mod Reports
pub mod Idempotency
pub mod Texts
pub mod Paths
