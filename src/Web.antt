-- ===== src/Web.antt =====
-- controllers: the handlers of the web API that decide something of their own. `Compose` is
-- email/send.go, `Accounts` is user.go and login.go, `RuleEdit` is rule.go.
pub mod Access
pub mod Accounts
pub mod Compose
pub mod Send
pub mod RuleEdit
