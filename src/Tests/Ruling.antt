-- ===== src/Tests/Ruling.antt =====
-- Witnesses for services/rule and services/del_email.
use pmail.Base.{◌≡◌, ◌≢◌, ◌⊎◌, true, false, none, [], ◌∷◌, codes, ascii}
use pmail.Removal.{Faults, del_email}
use pmail.Removal.Deleted.{kept_rows, del_email-rows}
use pmail.Rules.Forwarding.{ForwardWorld, do_forward, Guarded, do_forward-Guarded}
use pmail.Tests.Data.{same_text, domains, bob, store, mail_lib, mail}

abbrev world : ForwardWorld
world = record {
  users = record bob { id = 8; account = codes "al" } ∷ bob ∷ [];
  find_user_fails = false;
  find_relation_fails = false;
  insert_fails = false;
  raw_works = false;
  remail_works = true;
}

do_forward-Guarded_example :
    Guarded mail_lib ascii same_text domains
      (codes "pm.org")
      world
      mail
      (codes "x@else.org")
      bob
      (codes "raw")
      store
      (do_forward mail_lib ascii same_text domains
        (codes "pm.org")
        world
        mail
        (codes "x@else.org")
        bob
        (codes "raw")
        store)
do_forward-Guarded_example =
    do_forward-Guarded mail_lib ascii same_text domains (codes "pm.org") world mail
      (codes "x@else.org") bob (codes "raw") store

abbrev pub deletes : Faults
deletes = record {
  begin_error = none;
  commit_error = none;
  find_error = λ n. none;
  update_error = λ n. none;
  relation_error = λ n. none;
  count_error = λ n. none;
  email_error = λ n. none;
}

del_email-rows_example :
    let r = del_email deletes 7 (1 ∷ []) true store in
    ((r.0 ≢ none) × (r.1 ≡ store))
    ⊎ ((r.0 ≡ none) × (r.1.user_emails ≡ kept_rows 7 (1 ∷ []) store.user_emails))
del_email-rows_example = del_email-rows deletes 7 (1 ∷ []) store
