-- ===== src/FilterDriver.antt =====
-- The NDIS lightweight filter driver, src/FilterDriver/main.cpp and NfdCore.hpp.
pub mod Ndis
pub mod Module
pub mod DataPath
pub mod Control
pub mod Interleaving
pub mod Run
pub mod Locking
pub mod Sends
pub mod Receives
pub mod Driver
pub mod Attach
pub mod Memory
pub mod Names
pub mod Attachment
pub mod Consistency
pub mod Entry
pub mod Resources
pub mod Forwarding
pub mod States
pub mod Examples
