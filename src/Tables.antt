-- ===== src/Tables.antt =====
-- models: the rows of the database's tables, as far as the modelled code reads them. A table is the
-- list of its rows, by ascending id; an SQL statement is the list operation that its text denotes.
use pmail.Base.{
  ℕ, Bool, not, Option, none, some, List, [], ◌∷◌, if◌then◌else◌, length, select, Text,
}

-- models/user_email.go: `UserEmail`
pub record UserEmail : Type 0 where
  pub id : ℕ
  pub user_id : ℕ
  pub email_id : ℕ
  pub is_read : ℕ
  pub group_id : ℕ
  pub status : ℕ

-- models/group.go: `Group`
pub record Group : Type 0 where
  pub id : ℕ
  pub name : Text
  pub parent_id : ℕ
  pub user_id : ℕ
  pub full_path : Text

-- models/User.go: `User`, with `is_admin` and `disabled` as flags
pub record User : Type 0 where
  pub id : ℕ
  pub account : Text
  pub name : Text
  pub password : Text
  pub is_admin : Bool
  pub disabled : Bool

-- consts/consts.go
abbrev pub type_receive : ℕ
type_receive = 0

abbrev pub type_send : ℕ
type_send = 1

abbrev pub status_wait : ℕ
status_wait = 0

abbrev pub status_sent : ℕ
status_sent = 1

abbrev pub status_fail : ℕ
status_fail = 2

abbrev pub status_del : ℕ
status_del = 3

abbrev pub status_drafts : ℕ
status_drafts = 4

abbrev pub status_junk : ℕ
status_junk = 5

abbrev pub status_delivery_pending : ℕ
status_delivery_pending = 6

-- models/group.go: the codes of the default mailboxes
abbrev pub inbox : ℕ
inbox = 2000000000

abbrev pub sent : ℕ
sent = 2000000001

abbrev pub drafts : ℕ
drafts = 2000000002

abbrev pub deleted : ℕ
deleted = 2000000003

abbrev pub junk : ℕ
junk = 2000000004

-- `Get` on a query: its first row.
abbrev pub first {ℓ} : {A : Type ℓ} → List A → Option A
first [] = none
first (x ∷ xs) = some x

-- `update … set … where …`
abbrev pub update_where {ℓ} : {A : Type ℓ} → (A → Bool) → (A → A) → List A → List A
update_where p f [] = []
update_where p f (x ∷ xs) = (if p x then f x else x) ∷ update_where p f xs

-- `delete from … where …`
abbrev pub delete_where {ℓ} : {A : Type ℓ} → (A → Bool) → List A → List A
delete_where p xs = select (λ x. not (p x)) xs

-- `select count(1) from … where …`
abbrev pub count_where {ℓ} : {A : Type ℓ} → (A → Bool) → List A → ℕ
count_where p xs = length (select p xs)
