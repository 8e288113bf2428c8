-- ===== src/Config.antt =====
-- The configuration files: config_reader.h and config_reader.cpp, one module for each file that is
-- read, over what yaml-cpp offers.
pub mod Yaml
pub mod Scheme
pub mod Ssd
pub mod Host
mod Tests
