-- ===== src/Smtp.antt =====
-- listen/smtp_server: the SMTP server. `Delivery` is delivery_error.go.
pub mod Delivery
pub mod Session
pub mod Audit
pub mod Incoming
pub mod Server
pub mod Ruling
pub mod Handler
