-- ===== src/Chain.antt =====
-- src/node/init-chain.ts: the edits of the devnet's ckb.toml by lines, so that comments and layout
-- stay. The TOML parser and semver are third-party code.
pub mod Lines
pub mod Terminal
pub mod Listening
pub mod Migrating
mod Tests
