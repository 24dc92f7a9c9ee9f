-- ===== src/Tests.antt =====
-- Witnesses: each applies a theorem at concrete data.
mod Data
mod Sending
mod Settings
mod Searching
mod Ruling
mod Failing
mod Receiving
mod Grouping
mod Mailing
mod Delivering
mod Handling
mod Web
