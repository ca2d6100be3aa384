-- ===== src/Client.antt =====
-- src/eoclient.cpp and src/eoclient.hpp: a connection, from the bytes received to the packets that
-- are queued for the handlers.
pub mod Frame
pub mod Sequence
pub mod Execute
mod Tests
