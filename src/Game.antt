-- ===== src/Game.antt =====
-- game/: the players that are logged in.
pub mod Player
pub mod PlayerManager
pub mod Stats
pub mod Links
pub mod Logins
