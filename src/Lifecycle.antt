-- ===== src/Lifecycle.antt =====
-- The production lifecycle (src/neuroforge/promotion/lifecycle.py): the champion of an application,
-- how it is replaced and rolled back. The approval log is the source of truth; the stack of genomes in
-- production is replayed from it, and the `status` column follows it.
-- The locks (`production_lock`, `_lock_application`) make each operation one step; a call sees the
-- session as its transaction found it, so `session.refresh` reads the same row again.
pub mod Log
pub mod Change
pub mod Baseline
pub mod Replay
pub mod Stack
pub mod Promotion
pub mod Champion
pub mod Rollback
pub mod Reconcile
pub mod Named
pub mod Agreement
pub mod Stored
pub mod Reach
mod Examples
