-- ===== src/Webhook.antt =====
-- include/webhook: from the body of a request to a signal.
pub mod Signal
pub mod Repair
pub mod Classify
pub mod Market
pub mod Priority
pub mod Parser
