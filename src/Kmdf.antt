-- ===== src/Kmdf.antt =====
-- The drivers on the kernel-mode driver framework: src/EmptyKMDFDriver, src/KmdfHelloWorld and
-- src/WDFTestDriver.
pub mod Framework
pub mod EmptyDriver
pub mod HelloWorld
pub mod TestDriver
pub mod Startup
mod Examples
