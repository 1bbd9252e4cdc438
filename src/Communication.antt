-- ===== src/Communication.antt =====
-- The communication service: services/communication.
pub mod Mailbox
pub mod Send
pub mod Inbound
pub mod Again
pub mod Once
pub mod Linked
pub mod Status
