-- ===== src/Concurrency.antt =====
-- core/controller/concurrency: transactions, the lock manager and its waits-for graph.
pub mod Requests
pub mod WaitsFor
pub mod Manager
pub mod Locks
pub mod Release
pub mod Cycle
pub mod Acyclic
pub mod Terminates
