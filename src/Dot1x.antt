-- ===== src/Dot1x.antt =====
-- subset/dot1x/authenticator: the 802.1X test of a device (authenticator.py, its two network modules
-- eap_module.py and radius_module.py, and heartbeat_scheduler.py). The clock is an argument. The library
-- that packs and parses packets is not modelled: a message is what the code looks at.
pub mod Modules
pub mod Machine
pub mod Authenticator
pub mod Packets
pub mod Silent
pub mod Settled
pub mod Others
pub mod Recorded
mod Tests
