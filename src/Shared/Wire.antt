-- ===== src/Shared/Wire.antt =====
-- What the program's sockets carry: bytes, the texts they encode, the numbers written in them, and
-- the readers and writers of a connection.
pub mod Utf8
pub mod Text
pub mod Stream
