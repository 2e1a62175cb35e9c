-- ===== src/Netblock.antt =====
-- horace/inet4_netblock.{h,cc} and horace/inet6_netblock.{h,cc}: netblocks, read from their text.
pub mod Checks
pub mod Inet4
pub mod Inet6
