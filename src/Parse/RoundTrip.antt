-- ===== src/Parse/RoundTrip.antt =====
-- What is written for an attribute or an attribute list is parsed back.
pub mod Valid
pub mod Header
pub mod Simple
pub mod Encoded
pub mod Members
pub mod Lists
