-- ===== src/Wire.antt =====
-- wire/: bounded canonical wire encoding and decoding.
pub mod Varint
pub mod Encoder
pub mod Reader
pub mod Format
