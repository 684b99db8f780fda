-- ===== src/Socket.antt =====
-- The calls of applications: tipy/lib/socket.py and errno.py, the tables of sockets in
-- tipy/components/sockets_table.py, and the three files of user requests. A socket is an object, which
-- tables name by a number; a dictionary is a function of its key.
pub mod Table
pub mod Udp
pub mod Tcp
mod Raw
mod Tests
