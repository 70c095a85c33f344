-- ===== src/X86.antt =====
-- lib/x86: the front end for assembly text.
pub mod Tokenizer
pub mod Parser
