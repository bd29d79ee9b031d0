-- ===== src/Modules.antt =====
-- daq/test_modules: the test modules that a ConnectedHost runs (ipaddr_module.py and external_module.py,
-- with base_module.py).
pub mod IpAddr
pub mod Toggled
pub mod External
pub mod Finished
mod Tests
