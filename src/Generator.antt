-- ===== src/Generator.antt =====
-- daq/generator.py: the configuration of the switches of a site, from the site and a setup.
pub mod Site
pub mod Uniform
pub mod Flatten
pub mod Links
pub mod Stack
pub mod Parts
mod Tests
pub mod Output
