-- ===== src/Daemon.antt =====
-- src/util/daemon.ts: PID files, what the system says of a process, and whether a process is a
-- daemon of this installation.
pub mod PidFiles
pub mod Waiting
pub mod Processes
pub mod Identity
mod Tests
