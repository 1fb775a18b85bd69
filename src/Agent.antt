-- ===== src/Agent.antt =====
-- The investigating agent, src/opspilot/agent: a module for each of its files.
pub mod Policy
pub mod Schemas
pub mod Client
pub mod Remediation
pub mod Idempotency
pub mod Tools
pub mod State
pub mod Support
pub mod Nodes
pub mod Graph
pub mod Tracing
pub mod Checkpointer
