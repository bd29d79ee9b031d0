-- ===== src/Host.antt =====
-- daq/host.py (ConnectedHost): the states of a device under test, and the methods that move it from
-- one to the next. A Session holds the host, its gateway and its device; a call of the runner is
-- noted in `calls` in the order in which it is made. Streams, files, timers and the test modules are
-- environment: the answers that the methods read are their arguments.
mod Machine
mod Steps
pub mod Phases
pub mod Transitions
pub mod Running
pub mod Ending
pub mod Settings
pub mod Layers
mod Tests
unfoldable pub use Machine.*
unfoldable pub use Steps.*
