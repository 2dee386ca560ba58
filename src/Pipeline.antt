-- ===== src/Pipeline.antt =====
-- The outbox pipeline as a whole: what the database, the poller and the broker guarantee together.
pub mod Spec
pub mod Delivered
pub mod Completed
pub mod Refined
pub mod Growth
pub mod Distinct
pub mod Backlog
pub mod Drained
pub mod Settled
pub mod Redelivery
