-- ===== src/Examples.antt =====
-- Small inputs on which the theorems are applied, and runs of the code on them.
mod Floats
mod Grid
mod Stream
mod Store
mod Lobby
mod Hunt
mod Mind
mod Meadow
mod Gate
mod Cache
mod Stroll
mod Crew
mod Ledger
mod Doors
mod Hall
