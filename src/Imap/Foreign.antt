-- ===== src/Imap/Foreign.antt =====
-- listen/imap_server: the statements of a session leave the rows of other users as they are.
use pmail.Base.{
  ℕ, ◌≡◌, refl, ◌∙◌, Bool, true, false, not, ◌&&◌, Option, none, some, List, [], ◌∷◌, ◌++◌,
  append-nil, arith, ◌==◌, if◌then◌else◌, ==_iff, and_true, any, select-append, Text,
}
use pmail.Db.{Error}
use pmail.Groups.{elem, move_mail_to_group}
use pmail.Imap.{Session, Env}
use pmail.Imap.Moving.{fails, set_status, move_to_default_box, move_rows, insert_copy, copy_all}
use pmail.Imap.Storing.{make_read, make_all_read}
use pmail.Listing.{Message}
use pmail.Removal.Others.{foreign_rows, relates-own, update_where-foreign, del_email-foreign}
use pmail.Removal.{relates}
use pmail.Smtp.Audit.{Store}
use pmail.Tables.{UserEmail, type_receive, status_sent, status_drafts, status_junk}

pub make_all_read-foreign :
    (fails : ℕ → Bool) (user_id : ℕ) (had_read : Bool) (ms : List Message) (rows : List UserEmail)
    → foreign_rows user_id (make_all_read fails user_id had_read ms rows)
      ≡ foreign_rows user_id rows
unfolding make_all_read make_read
make_all_read-foreign fails user_id had_read [] rows = refl
make_all_read-foreign fails user_id had_read (m ∷ ms) rows =
    make_all_read-foreign fails user_id had_read ms _ ∙ one (fails m.id)
  where
    one :
        (b : Bool)
        → foreign_rows user_id (make_read b user_id m.id had_read rows) ≡ foreign_rows user_id rows
    one true = refl
    one false =
        update_where-foreign user_id (relates m.id user_id) _ rows (relates-own m.id user_id)
          (λ r. refl)

pub if-foreign :
    (user_id : ℕ) (b : Bool) (xs ys rows : List UserEmail)
    → foreign_rows user_id xs ≡ rows
    → foreign_rows user_id ys ≡ rows
    → foreign_rows user_id (if b then xs else ys) ≡ rows
if-foreign user_id true xs ys rows h k = h
if-foreign user_id false xs ys rows h k = k

set_status-foreign :
    (e : Option Error) (user_id : ℕ) (ids : List ℕ) (status : ℕ) (s : Store)
    → foreign_rows user_id (set_status e user_id ids status s).1.user_emails
      ≡ foreign_rows user_id s.user_emails
unfolding set_status
set_status-foreign (some e) user_id ids status s = refl
set_status-foreign none user_id ids status s =
    update_where-foreign user_id (λ r. r.user_id == user_id && any (λ i. i == r.email_id) ids) _
      s.user_emails (λ r k. (and_true (r.user_id == user_id) _ k).0) (λ r. refl)

pub move_to_default_box-foreign :
    (env : Env) (user_id : ℕ) (ids : List ℕ) (name : Text) (s : Store)
    → foreign_rows user_id (move_to_default_box env user_id ids name s).1.user_emails
      ≡ foreign_rows user_id s.user_emails
unfolding move_to_default_box
move_to_default_box-foreign env user_id ids name s = ground (
  arith,
  del_email-foreign env.deletion user_id ids false s,
  set_status-foreign env.move_error user_id ids type_receive s,
  set_status-foreign env.move_error user_id ids status_sent s,
  set_status-foreign env.move_error user_id ids status_drafts s,
  set_status-foreign env.move_error user_id ids status_junk s,
)

pub move_rows-foreign :
    (env : Env) (ids : List ℕ) (group_id : ℕ) (s : Session)
    → foreign_rows s.user_id (move_rows env s.user_id ids group_id s).user_emails
      ≡ foreign_rows s.user_id s.store.user_emails
unfolding move_mail_to_group
move_rows-foreign env ids group_id s = go (fails env.move_error)
  where
    go :
        (b : Bool)
        → foreign_rows s.user_id
            (move_mail_to_group b s.user_id ids group_id (record {
              groups = s.groups;
              last_group_id = 0;
              user_emails = s.store.user_emails;
            })).1.user_emails
          ≡ foreign_rows s.user_id s.store.user_emails
    go true = refl
    go false =
        update_where-foreign s.user_id (λ r. elem r.email_id ids && r.user_id == s.user_id) _
          s.store.user_emails (λ r k. (and_true (elem r.email_id ids) _ k).1) (λ r. refl)

foreign-append :
    (user_id : ℕ) (row : UserEmail) (rows : List UserEmail)
    → row.user_id ≡ user_id
    → foreign_rows user_id (rows ++ row ∷ []) ≡ foreign_rows user_id rows
foreign-append user_id row rows e =
    let own : (row.user_id == user_id) ≡ true = (==_iff row.user_id user_id).1 e in
    select-append (λ r. not (r.user_id == user_id)) rows (row ∷ [])
    ∙ rw own (append-nil (foreign_rows user_id rows))

pub copy_all-foreign :
    (fails : ℕ → Bool) (user_id group_id : ℕ) (status_of : Message → ℕ) (ms : List Message)
    (s : Store)
    → foreign_rows user_id (copy_all fails user_id group_id status_of ms s).1.user_emails
      ≡ foreign_rows user_id s.user_emails
unfolding copy_all insert_copy
copy_all-foreign fails user_id group_id status_of [] s = refl
copy_all-foreign fails user_id group_id status_of (m ∷ ms) s =
    copy_all-foreign fails user_id group_id status_of ms _ ∙ one (fails m.ue_id)
  where
    one :
        (b : Bool)
        → foreign_rows user_id (insert_copy b user_id m group_id (status_of m) s).1.user_emails
          ≡ foreign_rows user_id s.user_emails
    one true = refl
    one false = foreign-append user_id _ s.user_emails refl
