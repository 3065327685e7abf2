-- ===== src/Tests.antt =====
-- Runs of the code on concrete inputs, and the theorems applied to such.
mod Core
mod Webhook
mod Risk
mod Sizing
mod Execution
mod Shadow
mod Readiness
mod SpotShadow
mod AutoLive
mod Scorer
mod Sync
mod Engine
mod Operator
mod Orders
