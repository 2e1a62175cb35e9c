-- ===== src/Tests.antt =====
-- The theorems at concrete inputs.
mod Wire
mod Attributes
mod Sessions
mod Records
mod Writers
mod Builders
mod Sources
mod Buffers
mod Queries
mod Netblocks
mod Messages
mod Captures
mod Packets
mod Logs
mod FileStores
mod SessionReaders
