-- ===== src/Nvme.antt =====
-- The driver of nvme_driver.h and nvme_driver.cpp, one module for each part of it.
pub mod World
pub mod Queue
pub mod Prp
pub mod Irq
pub mod Submit
pub mod Controller
pub mod Admin
pub mod Setup
pub mod Sized
pub mod Owned
pub mod Samples
mod Tests
