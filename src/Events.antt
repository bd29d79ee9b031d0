-- ===== src/Events.antt =====
-- daq/faucet_event_client.py (FaucetEventClient): the buffer of event lines that come in on a socket, the
-- debouncing of ports that go down and the filter of repeated port states. A text is the list of its
-- character codes; the JSON library is a parameter.
mod Lines
pub mod Buffer
mod Handling
pub mod Debounce
mod Tests
unfoldable pub use Lines.*
unfoldable pub use Handling.*
