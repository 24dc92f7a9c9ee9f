-- ===== src/Tests/Handling.antt =====
-- Witnesses for the handler of DATA.
use pmail.Base.{
  ℕ, ◌≡◌, refl, ◌⊎◌, true, false, none, some, List, [], ◌∷◌, arith, is_empty, codes, text_eq,
  trim_space, split, ascii,
}
use pmail.Parsemail.{MailUser, build_user, parsed_user, matched_user}
use pmail.Parsemail.Reader.{Message, Letter, sanitize_user}
use pmail.Smtp.Audit.{Email}
use pmail.Smtp.Audit.Relations.{Recorded}
use pmail.Smtp.Handler.{run_all, is_spoofed, judge, save_received, data_handler}
use pmail.Smtp.Audit.Stored.{IsValid}
use pmail.Smtp.Handler.Own.{Answers, from_of, letter_of, data_handler-submit, spf_check-no_sender}
use pmail.Smtp.Handler.Spoofed.{IsMarked, save_received-IsMarked}
use pmail.Smtp.Incoming.{World}
use pmail.Smtp.Server.{spf_pass, Server, spf_check}
use pmail.Smtp.Session.{Session, new_session}
use pmail.Parsemail.{get_domain_account}
use pmail.Tests.Data.{same_text, net_text, domains, bob, store, busy_once, mail_lib}

abbrev world : World
world = record {
  users = bob ∷ [];
  accounts_fail = false;
  admins_fail = false;
  domains = domains;
  spam_filter_level = 1;
  fresh_id = codes "id";
}

-- Every mail is from an address of the server, and has no field Sender.
abbrev forged : Message
forged = record {
  message_id = [];
  from_line = codes "eve@pm.org";
  sender_line = [];
  to_lines = codes "bob@pm.org" ∷ [];
  cc_lines = [];
  reply_to_lines = [];
  subject = codes "s";
  text = codes "t";
  html = [];
}

-- A plugin that takes every mail for a good one.
abbrev trusting : Letter → Letter
trusting m = record m { status = 0; authentication = some (true, true) }

abbrev server : Server
server = record {
  unicode = ascii;
  lib = mail_lib;
  sql_lower = same_text;
  world = world;
  main_domain = codes "pm.org";
  is_sqlite = true;
  first_faults = busy_once;
  last_faults = busy_once;
  read_message = λ raw. forged;
  dkim_check = λ raw. true;
  spf = record { is_private = λ a. false; check_host = λ a d s. spf_pass };
  plugins = record { parse_before = []; send_before = []; parse_after = trusting ∷ [] };
  send = λ m. (none, []);
  error_text = net_text;
  rule_rows = [];
  rule_query_fails = λ r. false;
  unmarshal = λ s. [];
  compile = λ s. none;
  to_int = λ s. 0;
  rule_fails = λ r. record { first_fails = false; second_fails = false };
  forward_world = λ r. record {
    users = [];
    find_user_fails = false;
    find_relation_fails = false;
    insert_fails = false;
    raw_works = true;
    remail_works = true;
  };
}

abbrev eve : MailUser
eve = record { email_address = codes "eve@pm.org"; name = [] }

abbrev parsed_letter : Letter
parsed_letter = record {
  reply_to = [];
  sent_from = some eve;
  to = [];
  bcc = [];
  cc = [];
  subject = codes "s";
  text = codes "t";
  html = [];
  sender = some eve;
  msg_id = [];
  size = 3;
  status = 0;
  authentication = none;
}

eve-spoofed : is_spoofed server eve false ≡ true
unfolding is_spoofed get_domain_account split text_eq
eve-spoofed = refl

abbrev to_bob : Session
to_bob = record new_session { to = codes "bob@pm.org" ∷ [] }

save_received-IsMarked_example :
    let r =
      save_received server to_bob
        (codes "raw")
        false
        false
        (judge server eve false true parsed_letter)
        store in
    (r.store ≡ store)
    ⊎ ((row : Email) × (ids : List ℕ) × IsMarked server row × Recorded row ids store r.store)
save_received-IsMarked_example =
    save_received-IsMarked server to_bob (codes "raw") eve false true false false parsed_letter
      store eve-spoofed

from-eve :
    split b'@' (from_of server (codes "raw")).email_address ≡ codes "eve" ∷ codes "pm.org" ∷ []
unfolding sanitize_user build_user parsed_user matched_user split trim_space text_eq
from-eve = refl

store-IsValid : IsValid store
store-IsValid = record { emails_given = (ground arith, tt); relations_given = (ground arith, tt) }

abbrev eves_session : Session
eves_session = record new_session { user_id = 7; user_account = codes "eve" }

data_handler-submit_example :
    Answers server eves_session
      (run_all server.plugins.send_before (letter_of server eves_session (codes "raw")))
      (codes "eve")
      store
      (data_handler server eves_session (codes "1.2.3.4:5") (some (codes "raw")) store)
data_handler-submit_example =
    data_handler-submit server eves_session (codes "1.2.3.4:5") (codes "raw") store (codes "eve")
      (codes "pm.org") [] refl from-eve store-IsValid

no_sender_line : is_empty (trim_space forged.sender_line) ≡ true
unfolding trim_space
no_sender_line = refl

spf_check-no_sender_example :
    (sender : MailUser) × ((letter_of server new_session (codes "raw")).sender ≡ some sender)
    × (spf_check server.spf (codes "1.2.3.4:5") sender ≡ false)
spf_check-no_sender_example =
    spf_check-no_sender server new_session (codes "1.2.3.4:5") (codes "raw") no_sender_line refl
