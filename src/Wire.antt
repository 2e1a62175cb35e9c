-- ===== src/Wire.antt =====
-- horace/octet_reader.{h,cc} and horace/octet_writer.{h,cc} as seen by their callers: a reader is
-- the list of octets still to come, a writer the list of octets written. The children add the
-- integer formats.
pub mod Octets
pub mod Unsigned
pub mod Signed
pub mod Fixed
pub mod Output
pub mod Input
