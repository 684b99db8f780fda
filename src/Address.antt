-- ===== src/Address.antt =====
-- Addresses as text and as numbers: tipy/lib/inet.py and tipy/lib/ethernet.py. A text is the list of
-- its characters' codes.
pub mod Text
pub mod Inet
pub mod Ethernet
mod Tests
