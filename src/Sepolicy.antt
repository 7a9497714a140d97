-- ===== src/Sepolicy.antt =====
-- native/src/sepolicy: the statements that change the policy.
pub mod Statement
pub mod Lexer
mod Examples
