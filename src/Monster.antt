-- ===== src/Monster.antt =====
-- field/monster/: the monsters of a field.
pub mod Random
pub mod Seeds
pub mod World
pub mod Combat
pub mod Attack
pub mod Respawn
pub mod Movement
pub mod Observe
pub mod Ai
pub mod Turn
pub mod Thoughts
pub mod Policy
pub mod Whole
