-- ===== src/Watcher.antt =====
-- services/repo-watcher/app: the comparison of two commits, and the loop that polls the head of a
-- repository and reports what changed.
pub mod Models
pub mod Differ
pub mod Polling
mod Examples
