-- ===== src/Removal.antt =====
-- services/del_email/del_email.go: deleting mails. A statement that fails changes nothing: `Faults`
-- says, for the place of an id in the list, which of its statements fail.
pub mod Deleted
pub mod Preserved
pub mod Intact
pub mod Others
use pmail.Base.{
  ℕ, ◌+◌, Bool, not, ◌&&◌, Option, none, some, List, [], ◌∷◌, ◌==◌, if◌then◌else◌, select,
}
use pmail.Db.{Error}
use pmail.Smtp.Audit.{Store}
use pmail.Tables.{UserEmail, status_del, first, update_where, delete_where, count_where}

pub record Faults : Type 0 where
  pub begin_error : Option Error
  pub commit_error : Option Error
  pub find_error : ℕ → Option Error
  pub update_error : ℕ → Option Error
  pub relation_error : ℕ → Option Error
  pub count_error : ℕ → Option Error
  pub email_error : ℕ → Option Error

-- The rows that relate a mail to a user.
abbrev pub relates : ℕ → ℕ → UserEmail → Bool
relates email_id user_id r = r.email_id == email_id && r.user_id == user_id

-- `status` and `group_id` of the update
unfoldable pub mark_deleted : ℕ → ℕ → Store → Store
mark_deleted email_id user_id s = record s {
  user_emails =
      update_where (relates email_id user_id) (λ r. record r { status = status_del; group_id = 0 })
        s.user_emails;
}

unfoldable pub delete_relation : ℕ → ℕ → Store → Store
delete_relation email_id user_id s = record s {
  user_emails = delete_where (relates email_id user_id) s.user_emails;
}

-- `count(1)`, and the mail's own row if no relation is left
unfoldable pub delete_orphan : Option Error → Option Error → ℕ → Store → Option Error × Store
delete_orphan count_error email_error email_id s = elim count_error [
  | some e ↦ (some e, s)
  | none ↦
      if count_where (λ r. r.email_id == email_id) s.user_emails == 0
      then elim email_error [
        | some e ↦ (some e, s)
        | none ↦ (none, record s { emails = delete_where (λ m. m.id == email_id) s.emails })
      ]
      else (none, s)
]

-- `deleteOne`
unfoldable pub delete_one : Faults → ℕ → ℕ → Bool → ℕ → Store → Option Error × Store
unfolding mark_deleted delete_relation delete_orphan
delete_one f n user_id forced_del id s =
    if not forced_del
    then elim (f.update_error n) [ some e ↦ (some e, s) | none ↦ (none, mark_deleted id user_id s) ]
    else elim (f.relation_error n) [
      | some e ↦ (some e, s)
      | none ↦ delete_orphan (f.count_error n) (f.email_error n) id (delete_relation id user_id s)
    ]

-- The loop of `DelEmail`.
unfoldable pub delete_all : Faults → ℕ → ℕ → Bool → List ℕ → Store → Option Error × Store
delete_all f n user_id forced_del [] s = (none, s)
delete_all f n user_id forced_del (id ∷ ids) s =
    let r = delete_one f n user_id forced_del id s in
    let rest = delete_all f (n + 1) user_id forced_del ids r.1 in
    elim r.0 [ some e ↦ (some e, r.1) | none ↦ rest ]

-- `DelEmail`: a session that does not commit leaves the tables as they were.
unfoldable pub del_email : Faults → ℕ → List ℕ → Bool → Store → Option Error × Store
unfolding delete_all
del_email f user_id ids forced_del s = elim f.begin_error [
  | some e ↦ (some e, s)
  | none ↦
      let r = delete_all f 0 user_id forced_del ids s in
      elim r.0 [
        | some e ↦ (some e, s)
        | none ↦ elim f.commit_error [ some e ↦ (some e, s) | none ↦ (none, r.1) ]
      ]
]

-- The rest of a turn of `DelByUID`, for the row found. Deleting the mail's own row may fail with no
-- effect but a line in the log.
unfoldable pub del_found : Faults → ℕ → ℕ → UserEmail → Store → Option Error × Store
del_found f n user_id ue s = elim (f.relation_error n) [
  | some e ↦ (some e, s)
  | none ↦
      let s' = record s {
        user_emails = delete_where (λ r. r.id == ue.id && r.user_id == user_id) s.user_emails;
      } in
      elim (f.count_error n) [
        | some e ↦ (some e, s')
        | none ↦ (none, (delete_orphan none (f.email_error n) ue.email_id s').1)
      ]
]

-- The query of `DelByUID`, whose error is dropped.
unfoldable pub find_row : Option Error → ℕ → ℕ → List UserEmail → Option UserEmail
find_row (some e) user_id id rows = none
find_row none user_id id rows = first (select (λ r. r.id == id && r.user_id == user_id) rows)

-- `DelByUID`: it begins no transaction, so every statement stays, and neither Rollback nor Commit has
-- an effect. It ends, without an error, at the first id that the user has no row of.
unfoldable pub del_by_uid : Faults → ℕ → ℕ → List ℕ → Store → Option Error × Store
unfolding del_found delete_orphan find_row
del_by_uid f n user_id [] s = (none, s)
del_by_uid f n user_id (id ∷ ids) s = elim (find_row (f.find_error n) user_id id s.user_emails) [
  | none ↦ (none, s)
  | some ue ↦
      let r = del_found f n user_id ue s in
      let rest = del_by_uid f (n + 1) user_id ids r.1 in
      elim r.0 [ some e ↦ (some e, r.1) | none ↦ rest ]
]
