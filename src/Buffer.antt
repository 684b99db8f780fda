-- ===== src/Buffer.antt =====
-- tipy/lib/buffer.py: the ring buffers of a TCP connection. `Ring` is the receive buffer's class,
-- `Recoverable` the send buffer's; both move bytes as `Slices` says, and `Queue` is the
-- specification of the first.
pub mod Slices
pub mod Queue
pub mod Ring
pub mod Recoverable
mod Tests
