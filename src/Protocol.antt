-- ===== src/Protocol.antt =====
-- The Fastboot wire protocol: response packets and the session state machine
-- (src/protocol/fastboot_protocol.hpp, fastboot_protocol.cpp, transport_session.hpp).
pub mod Response
pub mod Transport
pub mod Session
