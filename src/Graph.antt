-- ===== src/Graph.antt =====
-- The copilot graph (app/graph): its state, the nodes and the routes between them.
pub mod State
pub mod Agents
pub mod Deps
pub mod Turn
pub mod Replies
pub mod Context
pub mod Intent
pub mod Lookup
pub mod Planning
pub mod Execution
pub mod Responses
pub mod Nodes
pub mod Flow
pub mod Plans
pub mod Refusals
pub mod History
pub mod Memory
