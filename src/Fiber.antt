-- ===== src/Fiber.antt =====
-- The Fiber devnet environment, src/fiber.
pub mod EnvLock
pub mod Paths
pub mod Nodes
pub mod NodeConfig
pub mod StoreLock
pub mod Stop
pub mod Start
pub mod Manager
pub mod Accounts
pub mod Clean
pub mod Status
mod Tests
