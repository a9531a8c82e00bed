-- ===== src/Runtime.antt =====
-- app/provider_runtime: the registry of provider switches, and the catalog that reads it.
mod Tests
pub mod Contracts
pub mod Store
pub mod Registry
pub mod Catalog
pub mod Writes
pub mod Fence
pub mod Unready
pub mod Sync
pub mod Refused
pub mod Answers
pub mod Health
pub mod Rows
pub mod Ready
pub mod Packages
