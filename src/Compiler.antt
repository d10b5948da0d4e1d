-- ===== src/Compiler.antt =====
-- compiler/: the compiler's passes.
pub mod Loop
pub mod Lexer
pub mod Buffer
pub mod Types
pub mod Parser
pub mod Semantic
pub mod Front
pub mod Examples
