-- ===== src/Canonicalizer/Rules.antt =====
-- lib/canonicalizer/rules: the rules.
pub mod Structural
pub mod Meaning
pub mod Deduplication
pub mod Ordering
pub mod Flattening
pub mod Match
pub mod Algebraic
pub mod Denotes
pub mod Constants
pub mod Annihilators
pub mod Identities
pub mod Returns
