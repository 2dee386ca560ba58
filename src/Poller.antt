-- ===== src/Poller.antt =====
-- internal/poller: the outbox listener, and the PostgreSQL listener that wakes it.
pub mod Outbox
pub mod PgListener
pub mod System
pub mod Invariant
pub mod Outage
pub mod Shutdown
