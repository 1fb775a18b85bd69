-- ===== src/Agent/Nodes.antt =====
-- src/opspilot/agent/nodes.py: the nodes of the graph and the router behind `gather_context`. A node
-- takes the state and the world, and returns an update, pauses with a payload, or raises; tracing
-- and logging are not modelled. `Gather`, `Ground` and `Gate` hold the code, the others the proofs.
pub mod Gather
pub mod Ground
pub mod Gate
pub mod Evidence
pub mod Tokens
pub mod Grounding
pub mod Approval
pub mod Replay
