-- ===== src/Imap/Counts.antt =====
-- services/group/group.go: what STATUS says of a default mailbox, against the list that SEARCH loads.
use pmail.Base.{ℕ, ◌≡◌, true, false, ◌&&◌, List, [], ◌∷◌, ◌==◌, length, select, Text, codes}
use pmail.Imap.Status.{StatusOptions, status}
use pmail.Search.Load.{ue_list_by_uid}
use pmail.Tables.{UserEmail, Group}

-- `IsDefaultBox`'s mailboxes
abbrev default_boxes : List Text
default_boxes =
    codes "INBOX"
    ∷ codes "Sent Messages"
    ∷ codes "Drafts"
    ∷ codes "Deleted Messages"
    ∷ codes "Junk"
    ∷ []

abbrev pub both : StatusOptions
both = record {
  wants_uid_next = true;
  wants_messages = true;
  wants_uid_validity = false;
  wants_unseen = false;
}

Agrees : List UserEmail → List Group → ℕ → Text → Type 0
Agrees rows groups user_id name =
    (status rows groups user_id name both).messages
    ≡ length (ue_list_by_uid rows groups user_id name 0 0 [])

-- The rows of the user that have the status and are in no group.
abbrev pub top_rows : ℕ → ℕ → List UserEmail → List UserEmail
top_rows user_id box rows =
    select (λ r. r.user_id == user_id && (r.status == box && r.group_id == 0)) rows
