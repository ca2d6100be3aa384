-- ===== src/Handlers.antt =====
-- src/handlers: the packet handlers by which a player moves gold and items. A handler takes the
-- character and the reader of the packet, and gives the character after it and the packets sent.
pub mod Ids
pub mod Bank
pub mod Locker
pub mod Chest
pub mod Item
pub mod Door
pub mod Shop
pub mod Trade
mod Tests
