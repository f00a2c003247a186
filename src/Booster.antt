-- ===== src/Booster.antt =====
-- The priority booster: the driver of src/PriorityBooster and its client of src/PriorityBoosterClient.
pub mod Device
pub mod Client
pub mod Requests
pub mod Holdings
mod Examples
