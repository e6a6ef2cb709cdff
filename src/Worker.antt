-- ===== src/Worker.antt =====
-- worker/worker.cpp, worker/workerManager.cpp, field/FieldManager.cpp and core/dispatcher.cpp.
pub mod Loop
pub mod Delivery
pub mod Registry
pub mod Dispatcher
pub mod Fields
pub mod Hub
