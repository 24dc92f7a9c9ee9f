-- ===== src/Imap/Status.antt =====
-- services/group/group.go: `GetGroupStatus`, and `Status` of listen/imap_server. Of the two results of
-- `GetGroupStatus` the line of text, which nothing reads, is left out.
use pmail.Base.{
  ℕ, ◌+◌, Bool, true, false, not, ◌&&◌, ◌||◌, none, some, List, [], ◌∷◌, ltb, ◌==◌, if◌then◌else◌,
  select, Text, codes, text_eq,
}
use pmail.Groups.{group_by_name}
use pmail.Imap.{is_default_box}
use pmail.Listing.{box_status}
use pmail.Imap.Moving.{group_name_to_code}
use pmail.Search.Load.{last_segment}
use pmail.Tables.{UserEmail, Group, count_where}

-- The parameters that the callers give.
pub data StatusItem : Type 0 where
  item_uid_next item_messages item_uid_validity item_unseen : StatusItem

-- `getGroupNum`
unfoldable pub group_num : List UserEmail → ℕ → Text → Bool → ℕ
unfolding box_status
group_num rows user_id name must_unread = elim (box_status name) [
  | none ↦ 0
  | some status ↦
      if must_unread && text_eq name (codes "Sent Messages")
      then 0
      else count_where
          (λ r. r.user_id == user_id && (r.status == status && (not must_unread || r.is_read == 0)))
          rows
]

-- The id of `OrderBy("id desc").Get(&lastId)`.
unfoldable pub last_id : List UserEmail → ℕ
last_id [] = 0
last_id (r ∷ rs) = let rest = last_id rs in if ltb rest r.id then r.id else rest

-- `getNextUID`; the trash alone counts the mails in a group.
unfoldable pub next_uid : List UserEmail → ℕ → Text → ℕ
unfolding box_status last_id
next_uid rows user_id name = elim (box_status name) [
  | none ↦ 1
  | some status ↦
      last_id (
        select
          (λ r.
            r.user_id == user_id
            && (r.status == status && (text_eq name (codes "Deleted Messages") || r.group_id == 0)))
          rows)
      + 1
]

-- The `switch` for a default mailbox, and the one for a group of the user, which counts every row of
-- that group.
unfoldable pub default_value : List UserEmail → ℕ → Text → StatusItem → ℕ
unfolding group_num next_uid group_name_to_code
default_value rows user_id name item_uid_next = next_uid rows user_id name
default_value rows user_id name item_messages = group_num rows user_id name false
default_value rows user_id name item_uid_validity = group_name_to_code name
default_value rows user_id name item_unseen = group_num rows user_id name true

unfoldable group_value : List UserEmail → ℕ → StatusItem → ℕ
unfolding last_id
group_value rows group_id item_uid_next = last_id (select (λ r. r.group_id == group_id) rows) + 1
group_value rows group_id item_messages = count_where (λ r. r.group_id == group_id) rows
group_value rows group_id item_uid_validity = group_id
group_value rows group_id item_unseen =
    count_where (λ r. r.group_id == group_id && r.is_read == 0) rows

-- The values of `GetGroupStatus`: 0 for a mailbox that is missing.
unfoldable pub status_value : List UserEmail → List Group → ℕ → Text → StatusItem → ℕ
unfolding is_default_box group_by_name last_segment default_value group_value
status_value rows groups user_id name x =
    let g = group_by_name groups user_id (last_segment name) in
    if is_default_box name
    then default_value rows user_id name x
    else if g.id == 0
    then 0
    else group_value rows g.id x

-- `imap.StatusOptions`
pub record StatusOptions : Type 0 where
  pub wants_uid_next : Bool
  pub wants_messages : Bool
  pub wants_uid_validity : Bool
  pub wants_unseen : Bool

-- `imap.StatusData`; what was not asked for is 0.
pub record StatusData : Type 0 where
  pub messages : ℕ
  pub uid_next : ℕ
  pub uid_validity : ℕ
  pub unseen : ℕ

-- `Status`
unfoldable pub status : List UserEmail → List Group → ℕ → Text → StatusOptions → StatusData
unfolding status_value
status rows groups user_id name o =
    let value = λ (x : StatusItem). status_value rows groups user_id name x in
    record {
      messages = if o.wants_messages then value item_messages else 0;
      uid_next = if o.wants_uid_next then value item_uid_next else 0;
      uid_validity = if o.wants_uid_validity then value item_uid_validity else 0;
      unseen = if o.wants_unseen then value item_unseen else 0;
    }
