-- ===== src/Risk.antt =====
-- include/risk: what the program lets itself trade.
pub mod Orders
pub mod Position
pub mod Portfolio
pub mod PositionSizer
pub mod FeeAnalyzer
pub mod Score
pub mod Scorer
