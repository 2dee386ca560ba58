-- ===== src/Tests.antt =====
-- The theorems at concrete inputs, and runs of the model.
mod Data
mod Pipeline
mod Listener
mod Requests
mod Store
mod Startup
mod Lifecycle
mod Client
