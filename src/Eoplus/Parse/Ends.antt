-- ===== src/Eoplus/Parse/Ends.antt =====
-- src/eoplus/parse.cpp: the parser comes to an end, and its errors stand on lines of the script.
pub mod Steps
pub mod Expressions
pub mod Blocks
