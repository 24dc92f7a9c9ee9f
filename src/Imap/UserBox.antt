-- ===== src/Imap/UserBox.antt =====
-- listen/imap_server: commands on a mailbox that the user made.
