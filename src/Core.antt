-- ===== src/Core.antt =====
-- include/core: the parts of the program that the others stand on.
pub mod Types
pub mod SignalQueue
pub mod SymbolLocks
pub mod RateLimiter
pub mod Alerts
