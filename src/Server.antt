-- ===== src/Server.antt =====
-- The server of main.go: the table of its connections to each client, and what the listener, the
-- KCP sessions, the tun device and the timer do to it.
pub mod State
pub mod Choose
pub mod Disconnect
pub mod Accept
pub mod Reader
pub mod Tunnel
pub mod Ping
pub mod Invariant
pub mod Closing
pub mod Disconnected
pub mod Accepted
pub mod Joined
pub mod Forward
pub mod Age
pub mod Sound
mod SoundExamples
mod Examples
