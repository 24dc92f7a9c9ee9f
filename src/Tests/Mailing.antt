-- ===== src/Tests/Mailing.antt =====
-- Witnesses for listen/imap_server, listen/pop3_server and services/detail.
use pmail.Base.{
  ◌≡◌, refl, ◌⊎◌, true, false, none, some, [], ◌∷◌, arith, length, Text, codes, text_eq, split,
}
use pmail.Detail.{email_detail, has_auth, is_some, email_detail-has_auth}
use pmail.Imap.{Session, Env, seq_set, flags_add, range_messages, all_messages}
use pmail.Imap.Commands.{do_store, step}
use pmail.Imap.Status.{status}
use pmail.Imap.Pending.{Runs, started, stepped, Runs-others, plain_expunge-idle}
use pmail.Imap.Ranges.{count_up, uid_range-ends}
use pmail.Imap.Storing.{uid_range, expunge, store, store_found, make_all_read, delete_uids}
use pmail.Listing.{box_status, email_list_by_group, rows_by_number, in_request, row_of, messages}
use pmail.Base.Int.{ℤ, pos, negsuc}
use pmail.Listing.Placeholders.{count_marks, gen_sql-placeholders}
use pmail.Listing.Statement.{SearchTag, gen_sql, sql_of, params_of}
use pmail.Pop3 as Pop3
use pmail.Pop3.LoggedIn as LoggedIn
use pmail.Pop3.LoggedIn.{IsKnown, Reached-confined}
use pmail.Removal.{del_by_uid, del_found, find_row, delete_orphan}
use pmail.Removal.Others.{foreign_rows}
use pmail.Search.Load.{number_rows}
use pmail.NetError.{protocol}
use pmail.Sending.Relay.{Peer}
use pmail.Smtp.Audit.{Store}
use pmail.Smtp.Session.{login_account, encode_password}
use pmail.Tables.{UserEmail, User}
use pmail.Tests.Data as Data
use pmail.Tests.Data.{same_text, bob, stored_row}
use pmail.Tests.Ruling.{deletes}

abbrev other_row : UserEmail
other_row = record stored_row { id = 2; user_id = 8 }

abbrev shared : Store
shared = record Data.store { user_emails = stored_row ∷ other_row ∷ []; last_user_email_id = 2 }

abbrev session : Session
session = record {
  user_id = 7;
  current_mailbox = codes "INBOX";
  deleted_uids = [];
  store = shared;
  groups = [];
}

abbrev env : Env
env = record {
  deletion = deletes;
  read_fails = λ i. false;
  move_error = none;
  insert_fails = λ i. false;
}

-- The session after STORE 1 +FLAGS (\Deleted).
abbrev after_store : Session
after_store = record session { store = record shared { user_emails = other_row ∷ [] } }

after_store-step :
    step 1 env (do_store (seq_set ((1, 1) ∷ [])) flags_add (codes "\\Deleted" ∷ [])) session
    ≡ some after_store
unfolding step store store_found make_all_read delete_uids all_messages range_messages
    email_list_by_group rows_by_number box_status in_request row_of messages number_rows text_eq
    del_by_uid del_found find_row delete_orphan
after_store-step = refl

after_store-Runs : Runs session after_store
after_store-Runs =
    stepped session after_store 1 env
      (do_store (seq_set ((1, 1) ∷ [])) flags_add (codes "\\Deleted" ∷ [])) started after_store-step

Runs-others_example :
    (after_store.user_id ≡ session.user_id)
    × (after_store.groups ≡ session.groups)
    × (foreign_rows session.user_id after_store.store.user_emails
        ≡ foreign_rows session.user_id session.store.user_emails)
Runs-others_example = Runs-others session after_store after_store-Runs

plain_expunge-idle_example : expunge 0 env none after_store ≡ some (none, after_store)
plain_expunge-idle_example = plain_expunge-idle session after_store 0 env after_store-Runs refl

uid_range-ends_example : (uid_range 3 1 2 ≡ some (count_up 2 1)) × (uid_range 9 5 4294967295 ≡ none)
uid_range-ends_example =
    uid_range-ends 2 3 1 2 9 5 (omega arith) (omega arith) (omega arith) (omega arith)

abbrev in_projects : Session
in_projects = record session { current_mailbox = codes "projects" }

email_detail-has_auth_example :
    is_some (email_detail false false false 7 1 true shared).0
    ≡ has_auth false false 7 1 shared.user_emails
email_detail-has_auth_example = email_detail-has_auth false false true 7 1 shared (refl, (refl, tt))

abbrev bob_hashed : User
bob_hashed = record bob { password = codes "pwpmailpmail2023" }

abbrev logged_in : Pop3.Session
logged_in = record Pop3.new_session { user = codes "bob"; transaction = true; user_id = 7 }

logged_in-Reached : LoggedIn.Reached same_text ((bob_hashed ∷ []) ∷ []) logged_in shared
unfolding Pop3.user Pop3.pass Pop3.log_in login_account encode_password split text_eq
logged_in-Reached =
    LoggedIn.did_pass [] (bob_hashed ∷ []) (Pop3.user (codes "bob@pm.org") Pop3.new_session) shared
      (codes "pw")
      (LoggedIn.did_user [] Pop3.new_session shared (codes "bob@pm.org")
        (LoggedIn.connected shared))

Reached-confined_example :
    ((logged_in.transaction ≡ false) ⊎ IsKnown ((bob_hashed ∷ []) ∷ []) logged_in)
    × (foreign_rows 7 (Pop3.quit deletes logged_in shared).user_emails
        ≡ foreign_rows 7 shared.user_emails)
Reached-confined_example =
    Reached-confined same_text ((bob_hashed ∷ []) ∷ []) logged_in shared deletes logged_in-Reached

abbrev print_nothing : ℤ → Text
print_nothing n = []

prints_no_mark : (n : ℤ) → count_marks (print_nothing n) ≡ 0
unfolding count_marks
prints_no_mark n = refl

abbrev all_received : SearchTag
all_received = record { kind = pos 0; status = negsuc 0; group_id = negsuc 0 }

gen_sql-placeholders_example :
    let s = gen_sql print_nothing 7 false all_received (codes "a?b") false (pos 0) (pos 10) in
    count_marks (sql_of s) ≡ length (params_of s)
gen_sql-placeholders_example =
    gen_sql-placeholders print_nothing 7 false all_received (codes "a?b") false (pos 0) (pos 10)
      prints_no_mark

abbrev refusing : Peer
refusing = record {
  dialed = none;
  greeted = none;
  has_starttls = true;
  started_tls = none;
  authenticated = none;
  took_mail = none;
  took_rcpt = λ t. none;
  took_data = some (protocol 550 (codes "no"));
  wrote = none;
  closed = none;
}
