-- ===== src/Repository.antt =====
-- internal/repository: the statements on each table.
pub mod Allocation
pub mod Lifecycle
pub mod Orders
pub mod Events
pub mod Recipes
