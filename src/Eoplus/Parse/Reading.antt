-- ===== src/Eoplus/Parse/Reading.antt =====
-- src/eoplus/parse.cpp: how the parser reads what is printed.
pub mod Runs
pub mod Expressions
pub mod Blocks
pub mod States
pub mod Quests
