-- ===== src/Network.antt =====
-- p_network.go, p_netlink.go and get_wan_ip of p_utils.go: the machine's interfaces and addresses,
-- and what the program does when a link or a route changes.
pub mod Interfaces
pub mod Lookup
pub mod Wan
pub mod Sysctls
pub mod Addresses
pub mod Netlink
pub mod Links
mod Examples
