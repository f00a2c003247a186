-- ===== src/Engine.antt =====
-- The controller's filter engine, src/WFPController/WindowsFilteringPlatform, and its main loop,
-- src/WFPController/main.cpp.
pub mod Platform
pub mod State
pub mod Handles
pub mod Operations
pub mod Sequence
pub mod Sessions
pub mod Tracking
pub mod Installed
pub mod Refinement
pub mod Destruction
pub mod Controller
pub mod Startup
pub mod Running
pub mod Ending
pub mod Leavings
pub mod Scope
pub mod Steps
pub mod SetUp
pub mod Examples
