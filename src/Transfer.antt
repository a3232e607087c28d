-- ===== src/Transfer.antt =====
-- modules/common/src/TransferChannel.cpp: the TLS side channels that carry files and listings.
pub mod Channel
pub mod Entries
pub mod Files
pub mod Paths
pub mod Directories
