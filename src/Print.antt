-- ===== src/Print.antt =====
-- p_utils.go: the texts that describe the tables, for the log, the status page and the aggregator.
pub mod Format
pub mod Servers
pub mod Clients
pub mod Pieces
pub mod Order
pub mod Status
mod Examples
