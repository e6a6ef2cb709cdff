-- ===== src/Aoi.antt =====
-- The area of interest of a field: field/AoiWorld.h, field/AoiWorld.cpp (Types,
-- Sectors, World) and
-- field/FieldAoiSystem.cpp (System).
pub mod Types
pub mod Sectors
pub mod World
pub mod System
pub mod View
pub mod Grid
pub mod Rebuild
pub mod Invariant
pub mod Preserve
pub mod Moves
pub mod Told
pub mod Sightings
pub mod Visibility
pub mod Exact
pub mod Crossing
pub mod ExactMoves
pub mod Reach
