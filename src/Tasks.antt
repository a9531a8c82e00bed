-- ===== src/Tasks.antt =====
-- app/tasks: the persistent task service.
pub mod Contracts
pub mod Text
pub mod Store
pub mod Service
pub mod Leases
pub mod Control
pub mod Rows
pub mod Optimistic
pub mod Concurrency
pub mod History
pub mod Invariant
pub mod Preserve
pub mod Reach
pub mod Outcomes
pub mod Fresh
pub mod Recovery
pub mod Fencing
pub mod Cleanup
mod Tests
