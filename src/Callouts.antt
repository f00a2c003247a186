-- ===== src/Callouts.antt =====
-- The callout driver, src/WPFCalloutDriver: its entry and unload, its five callouts' registration with
-- the Windows Filtering Platform, and their classify functions.
pub mod System
pub mod Registration
pub mod Classify
pub mod Logging
pub mod Registered
pub mod Matching
pub mod ProcessId
pub mod Examples
