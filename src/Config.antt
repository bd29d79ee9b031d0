-- ===== src/Config.antt =====
-- daq/configurator.py: configurations, their files and the command line.
pub mod Tree
pub mod Merge
pub mod Flat
pub mod Files
pub mod Overlay
pub mod Args
pub mod Includes
pub mod Rounds
pub mod Items
mod Tests
