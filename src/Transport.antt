-- ===== src/Transport.antt =====
-- transport/: records on a byte stream.
pub mod Record
