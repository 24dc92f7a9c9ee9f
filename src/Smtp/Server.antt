-- ===== src/Smtp/Server.antt =====
-- listen/smtp_server/read_content.go: what the handler of DATA takes from elsewhere, and `spfCheck`.
-- Plugins are functions on the raw mail and on the mail that was parsed.
use pmail.Base.{ℕ, Bool, true, false, Option, List, [], ◌∷◌, if◌then◌else◌, Text, split, Unicode}
use pmail.NetError.{NetError}
use pmail.Parsemail.{MailUser, MailLib}
use pmail.Parsemail.Reader.{Message, Letter}
use pmail.Rules.{Value, Rule, RuleRow, Compile}
use pmail.Rules.Actions.{Fails}
use pmail.Rules.Forwarding.{ForwardWorld}
use pmail.Smtp.Audit.{Email, Store, local_persistence_smtp_error}
use pmail.Smtp.Audit as Audit
use pmail.Smtp.Delivery.{DomainErrors}
use pmail.Smtp.Incoming.{World}
use pmail.Tables.{User}

-- The results of `spf.CheckHost` that the code tells apart.
pub data SpfResult : Type 0 where
  spf_none spf_pass spf_other : SpfResult

-- Whether the address of a peer is private, and `spf.CheckHost` on that address, a domain and a sender.
pub record Spf : Type 0 where
  pub is_private : Text → Bool
  pub check_host : Text → Text → Text → SpfResult

abbrev passes : SpfResult → Bool
passes spf_none = true
passes spf_pass = true
passes spf_other = false

-- `len(tmp) < 2`, and the check of `tmp[1]`.
unfoldable pub check_parts : Spf → Text → Text → List Text → Bool
check_parts spf remote sender [] = false
check_parts spf remote sender (account ∷ []) = false
check_parts spf remote sender (account ∷ domain ∷ more) =
    passes (spf.check_host remote domain sender)

-- `spfCheck`
unfoldable pub spf_check : Spf → Text → MailUser → Bool
unfolding check_parts
spf_check spf remote sender =
    if spf.is_private remote
    then true
    else check_parts spf remote sender.email_address (split b'@' sender.email_address)

-- The plugins: `ReceiveParseBefore`, `SendBefore` and `ReceiveParseAfter`.
pub record Plugins : Type 0 where
  pub parse_before : List (Text → Text)
  pub send_before : List (Letter → Letter)
  pub parse_after : List (Letter → Letter)

-- The libraries, the settings, the faults of the database, the peers, and the rules.
pub record Server : Type 0 where
  pub unicode : Unicode
  pub lib : MailLib
  pub sql_lower : Text → Text
  pub world : World
  pub main_domain : Text
  pub is_sqlite : Bool
  pub first_faults : ℕ → Audit.Faults
  pub last_faults : ℕ → Audit.Faults
  pub read_message : Text → Message
  pub dkim_check : Text → Bool
  pub spf : Spf
  pub plugins : Plugins
  pub send : Letter → Option NetError × DomainErrors
  pub error_text : NetError → Text
  pub rule_rows : List RuleRow
  pub rule_query_fails : User → Bool
  pub unmarshal : Text → List Value
  pub compile : Compile
  pub to_int : Text → ℕ
  pub rule_fails : Rule → Fails
  pub forward_world : Rule → ForwardWorld
