-- ===== src/Consistency.antt =====
-- What the operations keep true of the database. Lifecycle: each task row moves along the task
-- lifecycle. Capacity: the used capacity of counters, machines and
-- staff is that of the tasks which hold it.
pub mod Balance
pub mod Expired
pub mod Requests
pub mod Sequences
pub mod Capacity
pub mod Lifecycle
pub mod Board
pub mod History
pub mod AutoComplete
