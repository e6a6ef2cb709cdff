-- ===== src/Field.antt =====
-- worker/fieldWorker.cpp: a field with its players, its monsters and its grid.
pub mod Types
pub mod Sending
pub mod Players
pub mod Monsters
pub mod Worker
pub mod Kept
pub mod Life
pub mod Returns
pub mod Deaths
pub mod Inputs
pub mod Idle
pub mod Birth
pub mod Points
pub mod Places
pub mod Courses
pub mod Roaming
pub mod Presence
