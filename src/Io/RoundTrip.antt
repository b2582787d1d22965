-- ===== src/Io/RoundTrip.antt =====
-- Writers and readers in pairs: what a writer puts into the block, and that the reader takes the
-- same value back out of it.
pub mod Scalars
pub mod Compounds
pub mod Sql
