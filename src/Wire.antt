-- ===== src/Wire.antt =====
-- Bytes on the wire: Python's struct module, and the Internet checksum of tipy/lib/csum.py.
pub mod Struct
pub mod Csum
mod Tests
