-- ===== src/Imap/Moving.antt =====
-- listen/imap_server: session_move.go and session_copy.go, with `Move2DefaultBox` of services/group.
use pmail.Base.{
  ℕ, ◌+◌, Bool, true, false, ◌&&◌, Option, none, some, List, [], ◌∷◌, ◌++◌, map, ◌==◌,
  if◌then◌else◌, is_empty, any, Text, codes, text_eq,
}
use pmail.Db.{Error}
use pmail.Groups.{group_by_full_path, move_mail_to_group}
use pmail.Imap.{
  Session, Env, Refusal, email_not_found, group_not_found, Numbers, is_default_box, range_messages,
  last_messages, numbered_last, refused_by,
}
use pmail.Listing.{Message}
use pmail.Removal.{del_email}
use pmail.Smtp.Audit.{Store}
use pmail.Tables.{
  UserEmail, type_receive, status_sent, status_drafts, status_del, status_junk, inbox, sent, drafts,
  deleted, junk, update_where,
}

-- `map[string]interface{}{"status": …, "group_id": 0}`
unfoldable pub set_status : Option Error → ℕ → List ℕ → ℕ → Store → Option Error × Store
set_status (some e) user_id ids status s = (some e, s)
set_status none user_id ids status s = (
  none,
  record s {
    user_emails =
        update_where (λ r. r.user_id == user_id && any (λ i. i == r.email_id) ids)
          (λ r. record r { status = status; group_id = 0 }) s.user_emails;
  },
)

-- `Move2DefaultBox`
unfoldable pub move_to_default_box : Env → ℕ → List ℕ → Text → Store → Option Error × Store
unfolding set_status
move_to_default_box env user_id ids name s =
    if text_eq name (codes "Deleted Messages")
    then del_email env.deletion user_id ids false s
    else if text_eq name (codes "INBOX")
    then set_status env.move_error user_id ids type_receive s
    else if text_eq name (codes "Sent Messages")
    then set_status env.move_error user_id ids status_sent s
    else if text_eq name (codes "Drafts")
    then set_status env.move_error user_id ids status_drafts s
    else if text_eq name (codes "Junk")
    then set_status env.move_error user_id ids status_junk s
    else (none, s)

abbrev pub fails : Option Error → Bool
fails none = false
fails (some e) = true

-- `MoveMailToGroup`, whose result is dropped, on the tables of a session
abbrev pub move_rows : Env → ℕ → List ℕ → ℕ → Session → Store
move_rows env user_id ids group_id s = record s.store {
  user_emails =
      (move_mail_to_group (fails env.move_error) user_id ids group_id (record {
        groups = s.groups;
        last_group_id = 0;
        user_emails = s.store.user_emails;
      })).1.user_emails;
}

-- `move2userbox`
unfoldable pub move_to_user_box : Env → List ℕ → Text → Session → Option Refusal × Session
unfolding group_by_full_path move_mail_to_group
move_to_user_box env ids dest s =
    let g = group_by_full_path s.groups s.user_id dest in
    if g.id == 0
    then (some group_not_found, s)
    else (none, record s { store = move_rows env s.user_id ids g.id s })

-- `Move` from the messages found
unfoldable pub move_found : Env → List Message → Text → Session → Option Refusal × Session
unfolding is_default_box move_to_default_box move_to_user_box
move_found env found dest s =
    let ids = map (λ m. m.id) found in
    let r = move_to_default_box env s.user_id ids dest s.store in
    if is_empty found
    then (none, s)
    else if is_default_box dest
    then (refused_by r.0, record s { store = r.1 })
    else move_to_user_box env ids dest s

-- `Move`
unfoldable pub move : Env → Numbers → Text → Session → Option Refusal × Session
unfolding last_messages range_messages move_found
move env set dest s = move_found env (numbered_last s set) dest s

-- `imap.CopyData`
pub record CopyData : Type 0 where
  pub uid_validity : ℕ
  pub dest_uids : List ℕ
  pub source_uids : List ℕ

-- `models.GroupNameToCode`
unfoldable pub group_name_to_code : Text → ℕ
group_name_to_code name =
    if text_eq name (codes "INBOX")
    then inbox
    else if text_eq name (codes "Sent Messages")
    then sent
    else if text_eq name (codes "Drafts")
    then drafts
    else if text_eq name (codes "Deleted Messages")
    then deleted
    else if text_eq name (codes "Junk")
    then junk
    else 0

-- The status that `copy2defaultbox` gives a row; `EmailStatusWait` is 0.
unfoldable pub copy_status : Text → ℕ
copy_status dest =
    if text_eq dest (codes "Deleted Messages")
    then status_del
    else if text_eq dest (codes "INBOX")
    then 0
    else if text_eq dest (codes "Sent Messages")
    then status_sent
    else if text_eq dest (codes "Drafts")
    then status_drafts
    else if text_eq dest (codes "Junk")
    then status_junk
    else 0

-- `Insert(&newUe)`, whose error is dropped: the id that the row has then, and the tables.
unfoldable pub insert_copy : Bool → ℕ → Message → ℕ → ℕ → Store → ℕ × Store
insert_copy fails user_id m group_id status s =
    let row : UserEmail = record {
      id = s.last_user_email_id + 1;
      user_id = user_id;
      email_id = m.id;
      is_read = m.is_read;
      group_id = group_id;
      status = status;
    } in
    if fails then (0, s) else (
      s.last_user_email_id + 1,
      record s {
        user_emails = s.user_emails ++ row ∷ [];
        last_user_email_id = s.last_user_email_id + 1;
      },
    )

-- The loops of `copy2defaultbox` and `copy2userbox`; `status_of` is the status of a message's copy.
unfoldable pub copy_all : (ℕ → Bool) → ℕ → ℕ → (Message → ℕ) → List Message → Store → List ℕ × Store
unfolding insert_copy
copy_all fails user_id group_id status_of [] s = ([], s)
copy_all fails user_id group_id status_of (m ∷ ms) s =
    let r = insert_copy (fails m.ue_id) user_id m group_id (status_of m) s in
    let rest = copy_all fails user_id group_id status_of ms r.1 in (r.0 ∷ rest.0, rest.1)

abbrev pub copied :
    ℕ → List Message → Session → List ℕ × Store → CopyData × Option Refusal × Session
copied uid_validity found s r = (
  record { uid_validity = uid_validity; dest_uids = r.0; source_uids = map (λ m. m.ue_id) found },
  none,
  record s { store = r.1 },
)

-- The data of a copy that finds no mailbox.
abbrev pub no_data : List Message → CopyData
no_data found = record { uid_validity = 0; dest_uids = []; source_uids = map (λ m. m.ue_id) found }

-- `Copy` from the messages found; without any, there is no data.
unfoldable pub copy_found :
    Env → List Message → Text → Session → Option CopyData × Option Refusal × Session
unfolding is_default_box group_by_full_path group_name_to_code copy_status copy_all
copy_found env found dest s =
    let g = group_by_full_path s.groups s.user_id dest in
    let by_default =
      copied (group_name_to_code dest) found s
        (copy_all env.insert_fails s.user_id 0 (λ m. copy_status dest) found s.store) in
    let by_group =
      copied g.id found s
        (copy_all env.insert_fails s.user_id g.id (λ m. m.status) found s.store) in
    if is_empty found
    then (none, some email_not_found, s)
    else if is_default_box dest
    then (some by_default.0, none, by_default.2)
    else if g.id == 0
    then (some (no_data found), some group_not_found, s)
    else (some by_group.0, none, by_group.2)

-- `Copy`
unfoldable pub copy : Env → Numbers → Text → Session → Option CopyData × Option Refusal × Session
unfolding last_messages range_messages copy_found
copy env set dest s = copy_found env (numbered_last s set) dest s
