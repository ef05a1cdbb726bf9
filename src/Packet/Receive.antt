-- ===== src/Packet/Receive.antt =====
-- The receive loop of `gdb_cmd_packet_vTask`: how it finds a packet in a stream of data packets.
mod Scan
mod Loop
pub mod Payload
pub mod Unmarked
