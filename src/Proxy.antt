-- ===== src/Proxy.antt =====
-- The RPC proxy's log, src/tools/proxy-events.ts.
pub mod EventLog
pub mod Rollover
pub mod Bodies
mod Tests
