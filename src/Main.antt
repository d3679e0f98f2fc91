-- ===== src/Main.antt =====
-- main.go: run_client and run_server, from their checks of the options to their endless loops.
pub mod Cli
pub mod Parse
pub mod Masks
pub mod Parsed
pub mod Outcome
pub mod Logged
pub mod Loop
pub mod Pings
mod Examples
mod CliExamples
