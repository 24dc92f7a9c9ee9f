-- ===== src/Imap.antt =====
-- listen/imap_server: a session, its tables, and how a command finds the messages it is about. Every
-- statement of `Env` that fails changes nothing.
pub mod Mailboxes
pub mod Storing
pub mod Fetching
pub mod Moving
pub mod Commands
pub mod Ranges
pub mod Foreign
pub mod Others
pub mod Pending
pub mod Last
pub mod UserBox
pub mod Status
pub mod Counts
use pmail.Base.{
  ℕ, Bool, true, false, Option, none, some, List, [], ◌∷◌, ◌++◌, any, Text, codes, text_eq,
}
use pmail.Db.{Error}
use pmail.Listing.{Message, email_list_by_group}
use pmail.Removal as Removal
use pmail.Smtp.Audit.{Store}
use pmail.Tables.{Group}

-- A `serverSession`, its user, and the tables.
pub record Session : Type 0 where
  pub user_id : ℕ
  pub current_mailbox : Text
  pub deleted_uids : List ℕ
  pub store : Store
  pub groups : List Group

-- Which statements fail: those of a deletion, the update of a mark or of a move, an insert.
pub record Env : Type 0 where
  pub deletion : Removal.Faults
  pub read_fails : ℕ → Bool
  pub move_error : Option Error
  pub insert_fails : ℕ → Bool

pub data Refusal : Type 0 where
  sql_error : Error → Refusal
  email_not_found : Refusal
  group_not_found : Refusal

-- `imap.NumSet`: ranges of sequence numbers or of UIDs, 0 for `*`.
pub data Numbers : Type 0 where
  seq_set : List (ℕ × ℕ) → Numbers
  uid_set : List (ℕ × ℕ) → Numbers

pub data FlagOp : Type 0 where
  flags_set : FlagOp
  flags_add : FlagOp
  flags_del : FlagOp

abbrev pub is_add : FlagOp → Bool
is_add flags_set = false
is_add flags_add = true
is_add flags_del = false

abbrev pub is_set : FlagOp → Bool
is_set flags_set = true
is_set flags_add = false
is_set flags_del = false

abbrev pub has_flag : List Text → Text → Bool
has_flag flags flag = any (λ f. text_eq f flag) flags

-- `IsDefaultBox`
unfoldable pub is_default_box : Text → Bool
is_default_box name =
    any (λ b. text_eq name b)
      (codes "INBOX"
        ∷ codes "Sent Messages"
        ∷ codes "Drafts"
        ∷ codes "Deleted Messages"
        ∷ codes "Junk"
        ∷ [])

-- The list that a loop asks for with one of its ranges.
unfoldable pub range_messages : Session → Bool → ℕ × ℕ → List Message
range_messages s uid r =
    email_list_by_group s.store.emails s.store.user_emails s.groups s.user_id s.current_mailbox
      (record { uid_list = []; star = r.0; end = r.1 }) uid

-- The loop of `Store`, which appends the lists of the ranges.
unfoldable pub all_messages : Session → Bool → List (ℕ × ℕ) → List Message
all_messages s uid [] = []
all_messages s uid (r ∷ rs) = range_messages s uid r ++ all_messages s uid rs

-- The loop of `Move` and `Copy`, which assigns the list of each range to the same variable.
unfoldable pub last_messages : Session → Bool → List Message → List (ℕ × ℕ) → List Message
last_messages s uid found [] = found
last_messages s uid found (r ∷ rs) = last_messages s uid (range_messages s uid r) rs

abbrev pub numbered_all : Session → Numbers → List Message
numbered_all s (seq_set rs) = all_messages s false rs
numbered_all s (uid_set rs) = all_messages s true rs

abbrev pub numbered_last : Session → Numbers → List Message
numbered_last s (seq_set rs) = last_messages s false [] rs
numbered_last s (uid_set rs) = last_messages s true [] rs

abbrev pub refused_by : Option Error → Option Refusal
refused_by none = none
refused_by (some e) = some (sql_error e)
