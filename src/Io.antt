-- ===== src/Io.antt =====
-- core/storage/io_manager: the raw block of bytes with its cursor, and the reads and writes of
-- scalars and strings. Numbers are little-endian, as on the machines that the program is built for.
pub mod Bytes
pub mod Values
pub mod Cursor
pub mod Codec
pub mod RoundTrip
