-- ===== src/Repository.antt =====
-- internal/repository: the rows, the statements that sqlc generates, and the store over them.
pub mod Models
pub mod Db
pub mod Events
pub mod Users
pub mod Products
pub mod Orders
pub mod OrderItems
pub mod Store
pub mod Tx
pub mod Migrations
