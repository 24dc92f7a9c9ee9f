-- ===== src/Tests/Receiving.antt =====
-- Witnesses for the reception of mail.
use pmail.Base.{refl, ◌⊎◌, true, false, none, some, [], ◌∷◌, codes, ascii}
use pmail.Parsemail.{MailUser}
use pmail.Smtp.Incoming.{Parsed, World, checks, incoming_accounts, received, save_email}
use pmail.Smtp.Incoming.Recipients.{NotSaved, IsSaved, save_email-IsSaved}
use pmail.Tests.Data.{same_text, domains, bob, store, busy_once, mail_lib}

abbrev world : World
world = record {
  users = bob ∷ [];
  accounts_fail = false;
  admins_fail = false;
  domains = domains;
  spam_filter_level = 1;
  fresh_id = codes "id";
}

abbrev writer : MailUser
writer = record { email_address = codes "a@else.org"; name = [] }

abbrev letter : Parsed
letter = record {
  sent_from = some writer;
  to = [];
  cc = [];
  bcc = [];
  subject = codes "hi";
  status = 0;
  msg_id = [];
  size = 0;
  authentication = none;
}

save_email-IsSaved_example :
    let c = checks ascii mail_lib same_text world letter true false in
    let accounts =
      incoming_accounts ascii mail_lib same_text world letter (codes "Bob@pm.org" ∷ []) in
    let r =
      save_email ascii mail_lib same_text world true busy_once 9
        (some letter)
        (codes "Bob@pm.org" ∷ [])
        true
        false
        store in
    NotSaved ascii mail_lib same_text world accounts c.0 c.1 store r
    ⊎ IsSaved ascii mail_lib same_text world accounts c.0 c.1
        (received ascii mail_lib same_text world 9 letter writer c.0 c.1)
        store
        r
save_email-IsSaved_example =
    save_email-IsSaved ascii mail_lib same_text world true busy_once 9 letter writer
      (codes "Bob@pm.org" ∷ []) true false store refl
