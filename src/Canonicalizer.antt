-- ===== src/Canonicalizer.antt =====
-- lib/canonicalizer and include/sivra/canonicalizer: rewriting of expression graphs.
pub mod Evaluator
pub mod Termination
pub mod Mapping
pub mod Rule
pub mod Scheduler
pub mod Configuration
pub mod Trace
pub mod Rewrite
pub mod Rules
pub mod Worklist
pub mod Engine
