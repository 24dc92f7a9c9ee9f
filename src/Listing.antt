-- ===== src/Listing.antt =====
-- services/list/list.go: `GetEmailListByGroup`, by which IMAP's STORE, MOVE, COPY and FETCH find the
-- messages of a mailbox. Rows of a table are listed by their ids.
pub mod Statement
pub mod Placeholders
use pmail.Base.{
  ℕ, Bool, ◌&&◌, Option, none, some, List, [], ◌∷◌, ltb, leb, ◌==◌, if◌then◌else◌, is_empty, any,
  select, Text, codes, text_eq,
}
use pmail.Groups.{group_by_name}
use pmail.Search.{Item}
use pmail.Search.Load.{last_segment, number_rows}
use pmail.Smtp.Audit.{Email}
use pmail.Tables.{UserEmail, Group}

-- `ImapListReq`
pub record ListReq : Type 0 where
  pub uid_list : List ℕ
  pub star : ℕ
  pub end : ℕ

-- What the callers read of a message: the mail's id and status, and of the relation the rest.
pub record Message : Type 0 where
  pub id : ℕ
  pub status : ℕ
  pub is_read : ℕ
  pub serial_number : ℕ
  pub ue_id : ℕ

-- The status that the `switch` gives a default mailbox.
unfoldable pub box_status : Text → Option ℕ
box_status name =
    if text_eq name (codes "INBOX")
    then some 0
    else if text_eq name (codes "Sent Messages")
    then some 1
    else if text_eq name (codes "Drafts")
    then some 4
    else if text_eq name (codes "Deleted Messages")
    then some 3
    else if text_eq name (codes "Junk")
    then some 5
    else none

-- `… in (…)`
abbrev pub listed : ℕ → List ℕ → Bool
listed n ns = any (λ k. k == n) ns

-- The condition on the id or on the serial number, which is the last of three that fits.
unfoldable pub in_request : ListReq → ℕ → Bool
in_request req n =
    if ltb 0 req.star && req.end == 0
    then leb req.star n
    else if ltb 0 req.star && ltb 0 req.end
    then leb req.star n && leb n req.end
    else listed n req.uid_list

-- `Find(&ue, ctx.UserID, group.ID)`: xorm takes what stands behind the slice for condition beans, which
-- are structs. Numbers make it fail before the statement runs, with both `?` unbound, and the slice
-- stays empty; the error is logged or dropped.
unfoldable pub find_with_numbers : ℕ → ℕ → List Item
find_with_numbers user_id group_id = []

-- The rows of a user's own mailbox: of a missing group, or of the call of `Find` that fails.
unfoldable pub user_box_rows : List Group → ℕ → Text → List Item
unfolding group_by_name find_with_numbers
user_box_rows groups user_id name =
    let g = group_by_name groups user_id (last_segment name) in
    if g.id == 0 then [] else find_with_numbers user_id g.id

-- The statement of `getEmailListByUidList`.
unfoldable pub rows_by_uid : List UserEmail → List Group → ℕ → Text → ListReq → List Item
unfolding box_status user_box_rows in_request number_rows
rows_by_uid rows groups user_id name req = elim (box_status name) [
  | none ↦ user_box_rows groups user_id name
  | some status ↦
      number_rows 1
        (select (λ r. r.user_id == user_id && (in_request req r.id && r.status == status)) rows)
]

-- The statement of `GetEmailListByGroup`.
unfoldable pub rows_by_number : List UserEmail → List Group → ℕ → Text → ListReq → List Item
unfolding box_status user_box_rows in_request number_rows
rows_by_number rows groups user_id name req = elim (box_status name) [
  | none ↦ user_box_rows groups user_id name
  | some status ↦
      select (λ x. in_request req x.serial_number)
        (number_rows 1
          (select (λ r. r.user_id == user_id && (r.status == status && r.group_id == 0)) rows))
]

-- `ueMap`: of two rows on one mail, the later one.
unfoldable pub row_of : ℕ → List Item → Option Item
row_of email_id [] = none
row_of email_id (x ∷ xs) =
    let later = row_of email_id xs in
    elim later [ some y ↦ some y | none ↦ if x.email_id == email_id then some x else none ]

-- The mails of the rows, in the order of the table `email`.
unfoldable pub messages : List Item → List Email → List Message
unfolding row_of
messages items [] = []
messages items (e ∷ es) =
    let rest = messages items es in
    elim (row_of e.id items) [
      | none ↦ rest
      | some x ↦
          record {
            id = e.id;
            status = e.status;
            is_read = x.is_read;
            serial_number = x.serial_number;
            ue_id = x.id;
          }
          ∷ rest
    ]

-- `GetEmailListByGroup`
unfoldable pub email_list_by_group :
    List Email → List UserEmail → List Group → ℕ → Text → ListReq → Bool → List Message
unfolding rows_by_uid rows_by_number messages
email_list_by_group emails rows groups user_id name req uid =
    if is_empty req.uid_list && (req.star == 0 && req.end == 0)
    then []
    else if uid
    then messages (rows_by_uid rows groups user_id name req) emails
    else messages (rows_by_number rows groups user_id name req) emails
