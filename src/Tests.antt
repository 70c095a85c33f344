-- ===== src/Tests.antt =====
-- Runs of the models on concrete inputs.
pub mod Core
pub mod Types
pub mod Catalogue
pub mod Graphs
pub mod Evaluators
pub mod Engine
pub mod Tokens
pub mod Rules
pub mod Configurations
pub mod Structural
pub mod Parser
pub mod Rewrites
pub mod Algebraic
pub mod Worklist
pub mod Canonicalize
