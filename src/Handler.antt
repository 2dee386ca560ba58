-- ===== src/Handler.antt =====
-- internal/handler: the gRPC services over a store.
pub mod Rpc
pub mod Converter
pub mod Events
pub mod Users
pub mod Products
pub mod Orders
pub mod Statuses
