-- ===== src/FileStore.antt =====
-- The store of endpoints/horace+file: a directory of spoolfiles, each a file of records.
pub mod Spoolfile
pub mod Scanner
pub mod Output
pub mod Input
