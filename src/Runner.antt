-- ===== src/Runner.antt =====
-- daq/runner.py (DAQRunner): the sets of ports that gateways use, the ports and devices that the
-- switches report, and the life of a target set. Gateways and hosts stand on heaps; a call of one of
-- their methods runs the definitions of Gateway and Host on the object.
mod State
mod Pool
mod Targets
mod Ports
mod Activation
mod Idle
mod Loop
pub mod TestList
mod Tests
pub mod Sets
pub mod Flapping
pub mod Events
pub mod Idling
pub mod Suppressed
pub mod Triggers
pub mod Readiness
pub mod Results
pub mod Detach
pub mod Handled
pub mod Looping
unfoldable pub use State.*
unfoldable pub use Pool.*
unfoldable pub use Targets.*
unfoldable pub use Activation.*
unfoldable pub use Idle.*
unfoldable pub use Ports.*
unfoldable pub use Loop.*
