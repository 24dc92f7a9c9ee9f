-- ===== src/Lib.antt =====
-- A verification library for the server of PMail (server/).
--
-- The program receives mail by SMTP, stores it in a database, serves it by IMAP, POP3 and a web page,
-- and delivers what its users write. A submission runs from a session (listen/smtp_server/action.go)
-- through the audit of the mail in the tables (audit_persistence.go, on db/retry.go) and its delivery
-- to the reply (delivery_error.go). Incoming mail passes the rules of its user (services/rule). IMAP
-- reads a mailbox (services/list/list.go) and searches it (imap_search.go); deletions go through
-- services/del_email. A user's mailboxes are the groups of services/group, which IMAP and the web page
-- create, rename and delete. POP3 reads and deletes by mail. The outbound settings (services/outbound)
-- choose how mail leaves. The web page's requests pass one test of who asks (listen/http_server) and
-- go to the controllers (controllers/), which change users, rules and settings and send mail.
--
-- The files, with paths under server/:
-- Base: Boolean tests, lists, texts (a text is the list of its character codes) and integers.
-- Arrays: utils/array/array.go.
-- Outbound: services/outbound/config.go. `normalize` and `validate` are normalizeAndValidate;
--   Outbound.Store has readUnlocked, Save and GetPublic on a disk of two files, where any file call
--   may fail.
-- Db: db/retry.go. One call of runTransactionAttempt is `run_attempt`, on any state; each attempt
--   has its own faults, and other connections may write between two attempts.
-- NetError: the trees of errors that delivery looks into.
-- Smtp.Delivery: listen/smtp_server/delivery_error.go.
-- Smtp.Session: listen/smtp_server/action.go. A session is a record, a handler a function of it;
--   Smtp.Session.Relay runs sequences of commands.
-- Smtp.Audit: listen/smtp_server/audit_persistence.go, with the tables email and user_email as
--   lists of rows and every statement able to fail. Smtp.Audit.Outgoing is deliverOutgoingEmail.
-- Smtp.Server: spfCheck and what the handler of DATA takes from the server; Smtp.Ruling runs the rules
--   of each user behind saveEmail, and Smtp.Handler is Data (read_content.go).
-- Smtp.Incoming: whom a received mail goes to (audit_persistence.go) and saveEmail (read_content.go).
-- Parsemail: the addresses of dto/parsemail/email.go; Parsemail.Reader is NewEmailFromReader, on the
--   header and the parts that go-message reads.
-- Tables: the rows of models/ and the codes of consts/consts.go.
-- Removal: services/del_email/del_email.go.
-- Rules: services/rule, services/rule/match and dto/rule.go.
-- Search: services/list/imap_search.go, and in Search.Load GetUEListByUID of list.go.
--   Search.Spec says what criteria mean for one message.
-- Listing: services/list/list.go, GetEmailListByGroup, by which IMAP's commands find their messages;
--   Listing.Statement is genSQL.
-- Groups: services/group/group.go on the tables group and user_email; Groups.Naming and Groups.Forest
--   have what ends and what stays a forest, Groups.Under and Groups.Removed what a deletion covers.
-- Imap: listen/imap_server. Imap.Storing is session_store.go and session_expunge.go, Imap.Moving
--   session_move.go and session_copy.go with Move2DefaultBox, Imap.Mailboxes session_create.go,
--   session_delete.go and session_rename.go, Imap.Commands the commands as steps of a session,
--   Imap.Status GetGroupStatus and session_status.go, Imap.Fetching session_fetch.go.
-- Detail: services/detail/detail.go and services/auth/auth.go, who reads a mail.
-- Pop3: listen/pop3_server/action.go; Pop3.Maildrop is STAT, LIST and UIDL.
-- Sending: utils/send/send.go, the delivery to the hosts of one domain. `fail_over` is the loop over the
--   hosts, each attempt a function of its transport and host. Sending.Relay is sendSMTPRelay of relay.go,
--   with what the relay answers as a record. Sending.Domains groups the recipients by domain and
--   delivers each group; Sending.Choice is doSend and tryRelay; Sending.Tencent is tencent_ses.go, and
--   Sending.Tencent.Signing its signed request and the reading of the answer.
-- Web: the web page's requests. Web.Access is contextIterceptor of https_server.go, Web.Accounts the
--   users (controllers/user.go, login.go, settings.go), Web.RuleEdit controllers/rule.go, Web.Compose
--   and Web.Send controllers/email/send.go.
-- Tests: concrete data, and one witness for each theorem with a condition.
--
-- Numbers: ids, sizes and codes are natural numbers; the settings' integers are signed. The pauses of
-- the retry loop and the age of a token wrap at 64 bits, ids and sequence numbers of a search at 32.
-- Loops over lists are structural. The fuel of `retry_loop` counts the attempts that are left, as the
-- loop of the source does, so it cannot run out early. The recursions over groups run on fuel one above
-- the last id, which is enough while every group has a greater id than its parent; the loop over a
-- range of UIDs runs on fuel above the range's length. Running out of fuel is `none`, never a result.
--
-- Parameters stand for code outside the repository: Unicode's case mappings, the database's LOWER, the
-- hash of passwords, go-imap's number sets, the JSON coder, the parser of addresses, regexp2, what
-- go-message reads, the checks of SPF and DKIM, the plugins as functions on a mail, the records of DNS,
-- HMAC and HTTP, the coders of MIME and of base64, the clock, and what a delivery answers. Where a
-- theorem relies on one of them the condition is among its binders. Of xorm it is written out that
-- Find fails on numbers behind the slice (`find_with_numbers` in Listing).
--
-- Not modelled: sockets, routes, templates, certificates, the plugins' processes and logging (input
-- and output); utils/smtp, utils/utf7 and dto/parsemail/encodedword.go (copies of packages); locks,
-- each call being a step of its own. Left for later: LIST and IDLE of IMAP, the controllers that call
-- one service, the configuration file, the text of a mail as it is built, and the set-up.

pub mod Arrays
pub mod Base
pub mod Db
pub mod Detail
pub mod Groups
pub mod Imap
pub mod Listing
pub mod NetError
pub mod Outbound
pub mod Parsemail
pub mod Pop3
pub mod Removal
pub mod Rules
pub mod Search
pub mod Sending
pub mod Smtp
pub mod Tables
pub mod Tests
pub mod Web
