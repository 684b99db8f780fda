-- ===== src/Tcp.antt =====
-- tipy/protocols/tcp: sequence numbers, the control block, its timers, and the state machine.
pub mod Seq
pub mod Types
pub mod Action
pub mod Timer
pub mod Output
pub mod Input
pub mod TxLoop
pub mod Open
pub mod Receive
pub mod Transmit
pub mod Machine
pub mod Moves
pub mod Tests
