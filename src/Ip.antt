-- ===== src/Ip.antt =====
-- tipy/protocols/ip: the input of IP packets, and their reassembly from fragments.
pub mod Reass
pub mod Cache
pub mod Rx
mod Tests
