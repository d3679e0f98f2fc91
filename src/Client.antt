-- ===== src/Client.antt =====
-- The client of main.go: the table of its connections to the server, and what the routes, the
-- KCP sessions, the tun device and the timer do to it.
pub mod State
pub mod Choose
pub mod Disconnect
pub mod Opening
pub mod Connect
pub mod Reader
pub mod Tunnel
pub mod Ping
pub mod Invariant
pub mod Quiet
pub mod Closing
pub mod Matching
pub mod Disconnected
pub mod Scheduler
pub mod Slots
pub mod Receive
pub mod Forward
pub mod Age
pub mod Adding
pub mod Staying
pub mod Standing
pub mod Mapping
pub mod Completing
pub mod Connecting
pub mod Connected
pub mod Linking
pub mod Overlap
pub mod Filling
pub mod Overlapped
pub mod Histories
pub mod Refines
pub mod Sound
pub mod Examples
mod ConnectExamples
pub mod LinkExamples
mod SoundExamples
