-- ===== src/Link.antt =====
-- The links of pcie_link.h and pcie_link_mcmq.cpp to the device.
pub mod Ringbuffer
pub mod Messages
pub mod Requests
pub mod Mcmq
pub mod Base
pub mod Access
pub mod Vfio
pub mod Samples
mod Tests
