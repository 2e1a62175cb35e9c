-- ===== src/Parse/Fuel.antt =====
-- The parsers take exactly the octets that they are told to, and their fuel is enough.
pub mod Readers
pub mod Members
