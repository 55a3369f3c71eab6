-- ===== src/Release.antt =====
-- internal/releasecandidate: which files go into a release archive.
pub mod Filter
pub mod Files
