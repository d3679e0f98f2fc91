-- ===== src/Packet.antt =====
-- What main.go reads in and writes into packets: the flow key of an IP frame (ExtractSrc,
-- ExtractDst), the HELLO and LINKDOWN messages, and the sorting of received messages.
pub mod Flow
pub mod Wire
mod Examples
