-- ===== src/Lexer.antt =====
-- cova/lex.go: the lexer.
pub mod Tokens
pub mod Scan
pub mod Tokenize
pub mod Progress
pub mod Rounds
pub mod Bounds
pub mod Widths
pub mod Fits
pub mod Keeps
pub mod Copied
pub mod Order
mod Tests
