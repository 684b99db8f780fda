-- ===== src/Packet.antt =====
-- The builders and parsers of tipy/protocols: headers as bytes on the wire.
pub mod Tcp
mod Frame
pub mod Udp
pub mod Icmp
pub mod Ip
pub mod Arp
pub mod Ether
pub mod Tx
mod Tests
