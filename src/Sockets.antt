-- ===== src/Sockets.antt =====
-- The controller's TCP socket, src/WFPController/WinSock/wfpcontroller.winsock.socket.cpp.
pub mod Socket
pub mod Ownership
pub mod Connecting
pub mod Reporting
mod Examples
