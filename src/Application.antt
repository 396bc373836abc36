-- ===== src/Application.antt =====
-- internal/application: the use cases.
pub mod Scores
pub mod Allocation
pub mod Tasks
pub mod Dependencies
pub mod Orders
pub mod Service
