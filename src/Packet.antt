-- ===== src/Packet.antt =====
-- src/packet.hpp and src/packet.cpp: the packet codec. A string of the source is the list of its
-- bytes, each a number below 256.
pub mod Number
pub mod Id
pub mod Reader
pub mod Builder
pub mod Cipher
mod Tests
