-- ===== src/Util.antt =====
-- p_utils.go: the address arithmetic of IpHosts and ipinc, and the sizes that the log prints.
pub mod Address
pub mod Hosts
pub mod Slash30
pub mod Masked
pub mod Counting
pub mod AllHosts
pub mod Endless
pub mod Size
mod Examples
