-- ===== src/Wire/Format.antt =====
-- Three views of a codec over wire/encoder.go and wire/reader.go: the bytes that a `Write` adds, the
-- bytes that a `Read` takes, and which bytes a `Read` can have taken when it ends without an error.
pub mod Writes
pub mod Reads
pub mod Codes
pub mod Passes
pub mod Parses
pub mod Vectors
pub mod Items
