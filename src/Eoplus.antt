-- ===== src/Eoplus.antt =====
-- src/eoplus: the language of the quest scripts.
pub mod Lex
pub mod Quest
pub mod Tokens
pub mod Parse
pub mod Script
pub mod Context
mod Tests
