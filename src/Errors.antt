-- ===== src/Errors.antt =====
-- The exceptions of the controller: src/WFPController/Error,
-- WinSock/wfpcontroller.winsock.winsockerror.cpp and
-- WindowsFilteringPlatform/wfpcontroller.wfp.wfperror.cpp.
pub mod Format
pub mod Translate
pub mod Classes
pub mod Reading
pub mod Released
pub mod Lines
pub mod Examples
