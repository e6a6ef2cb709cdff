-- ===== src/Storage.antt =====
-- storage/: which users wait to be written back, and how they reach Redis and MySQL.
pub mod DirtyHub
pub mod DbWorker
pub mod System
pub mod Queue
pub mod Stealing
pub mod Flushing
pub mod Connections
pub mod RealTime
pub mod Redis
pub mod Pipeline
pub mod Json
pub mod Reading
pub mod Statement
pub mod Clients
pub mod Lifecycle
