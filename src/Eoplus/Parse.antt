-- ===== src/Eoplus/Parse.antt =====
-- src/eoplus/parse.cpp, `Parser`, on the tokens that the lexer makes. The loops run on fuel.
pub mod Monad
pub mod Expressions
pub mod Blocks
pub mod Ends
pub mod Printing
pub mod Reading
pub mod Scoped
mod Tests
unfoldable pub use Monad.*
unfoldable pub use Expressions.*
unfoldable pub use Blocks.*
