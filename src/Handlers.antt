-- ===== src/Handlers.antt =====
-- core/handlers: what the server does with the requests of a client.
pub mod Logic
pub mod Entry
pub mod Dispatching
