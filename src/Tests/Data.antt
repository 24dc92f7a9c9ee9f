-- ===== src/Tests/Data.antt =====
-- Concrete data for the witnesses.
use pmail.Base.{
  ℕ, zero, suc, ◌+◌, false, Option, none, some, List, [], ◌∷◌, ◌==◌, if◌then◌else◌, Text, codes,
}
use pmail.Db.{sqlite, Attempt}
use pmail.NetError.{NetError, protocol}
use pmail.Outbound.{Config, default_config}
use pmail.Parsemail.{MailLib}
use pmail.Rules as Rules
use pmail.Smtp.Audit as Audit
use pmail.Smtp.Session.{Directory}
use pmail.Tables.{UserEmail, User}

abbrev pub same_text : Text → Text
same_text t = t

abbrev pub net_text : NetError → Text
net_text e = codes "refused"

abbrev pub domains : List Text
domains = codes "pm.org" ∷ []

abbrev pub bob : User
bob = record {
  id = 7;
  account = codes "bob";
  name = codes "Bob";
  password = codes "pw";
  is_admin = false;
  disabled = false;
}

abbrev pub directory : Directory
directory = record { users = bob ∷ []; fails = false }

abbrev pub stored_mail : Audit.Email
stored_mail = record {
  id = 1;
  kind = 0;
  subject = codes "s";
  from_address = codes "a";
  size = 3;
  spf_check = 1;
  dkim_check = 1;
  send_user_id = 0;
  status = 0;
  error = none;
  msg_id = codes "m";
}

abbrev pub stored_row : UserEmail
stored_row = record { id = 1; user_id = 7; email_id = 1; is_read = 0; group_id = 0; status = 0 }

abbrev pub store : Audit.Store
store = record {
  emails = stored_mail ∷ [];
  user_emails = stored_row ∷ [];
  last_email_id = 1;
  last_user_email_id = 1;
}

abbrev pub no_faults : Audit.Faults
no_faults = record {
  begin_error = none;
  commit_error = none;
  insert_email = none;
  insert_relation = λ n. none;
  update_email = none;
  update_user_email = none;
}

-- The first attempt meets SQLITE_BUSY at its COMMIT.
abbrev pub busy_once : ℕ → Audit.Faults
busy_once zero = no_faults
busy_once (suc zero) = record no_faults { commit_error = some (sqlite 5) }
busy_once (suc (suc n)) = no_faults

-- An attempt that adds one to a counter.
abbrev pub counting : ℕ → Attempt ℕ
counting k = record {
  begin_error = if k == 1 then some (sqlite 5) else none;
  body = λ n. (none, n + 1);
  rollback_error = none;
  commit_error = none;
  others = λ n. n;
}

abbrev pub gone : Option NetError
gone = some (protocol 550 (codes "no such user"))

abbrev pub relay_config : Config
relay_config = record default_config { mode = codes "relay"; host = codes " smtp.org " }

-- A parser of addresses that takes every text for an address.
abbrev pub mail_lib : MailLib
mail_lib = record {
  parse_address = λ s. some (s, []);
  find_address = λ s. none;
  decode_word = λ s. none;
  sanitize = same_text;
  remove_all = λ a b. b;
}

abbrev pub mail : Rules.Mail
mail = record {
  reply_to = [];
  sent_from = some (record { email_address = codes "a@b"; name = [] });
  to = [];
  bcc = [];
  cc = [];
  subject = codes "sale";
  text = [];
  html = [];
  sender = none;
  message_id = 1;
  status = 0;
}

abbrev pub on_subject : Rules.Value
on_subject = record { field_name = codes "Subject"; kind = codes "contains"; rule = codes "al" }

abbrev pub rule : Rules.Rule
rule = record {
  id = 1;
  user_id = 7;
  name = codes "r";
  rules = on_subject ∷ [];
  action = 4;
  params = codes "2000000003";
  sort = 1;
}
