-- ===== src/Process.antt =====
-- The process: plugins.go, options, app and cmd. Its functions may end the process, by klog.Fatalf
-- or by a panic.
mod Effects
pub mod Registry
pub mod Options
pub mod Controllers
pub mod Manager
pub use Effects.*
