-- ===== src/Lexer.antt =====
-- The lexical analyzer: lua/src/llex.c and llex.h, from the input stream to tokens.
pub mod State
pub mod Numerals
pub mod Strings
pub mod Scan
pub mod Ending
pub mod Quoted
pub mod Words
mod Tests
