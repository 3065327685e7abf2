-- ===== src/Execution.antt =====
-- include/execution: the positions that are held and the trades that are done.
pub mod Positions
pub mod Trades
pub mod Shadow
pub mod Readiness
pub mod SpotShadow
pub mod AutoLive
pub mod GradeFilter
pub mod Engine
