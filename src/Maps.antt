-- ===== src/Maps.antt =====
-- src/map.cpp: what stands on a map.
pub mod Chest
pub mod Floor
pub mod Doors
pub mod Walk
mod Tests
