-- ===== src/Strings.antt =====
-- The string helpers of the controller, src/WFPController/Strings/wfpcontroller.strings.cpp.
pub mod Text
pub mod Split
pub mod Search
pub mod Pieces
pub mod Converting
pub mod Tokens
pub mod Replacing
pub mod Divergence
pub mod Older
pub mod Terminators
pub mod Matching
pub mod Examples
