-- ===== src/Search/Load.antt =====
-- services/list/list.go: `GetUEListByUID`, which loads the mailbox for `SearchEmails`. Its statement
-- selects id, email_id and is_read, so the status of what it loads is Go's zero.
use pmail.Base.{
  ℕ, ◌+◌, ◌≡◌, refl, Bool, true, false, ◌&&◌, ◌||◌, Option, none, some, List, [], ◌∷◌, leb, ◌==◌,
  if◌then◌else◌, is_empty, any, select, All, All-select, Text, codes, text_eq,
}
use pmail.Tables.{UserEmail, Group, first}
use pmail.Search.{Item, deleted, draft, junk, has_flag}
use pmail.Search.Distinct.{Fresh, DistinctIds}

-- The last element of `strings.Split(s, "/")`.
unfoldable pub last_segment : Text → Text
last_segment [] = []
last_segment (c ∷ cs) =
    let rest = last_segment cs in if c == b'/' || any (λ d. d == b'/') cs then rest else c ∷ cs

-- The condition of the `switch`: a default mailbox is a status, any other the group of that name.
unfoldable pub mailbox_where : Text → ℕ → List Group → Option (UserEmail → Bool)
mailbox_where name user_id groups =
    if text_eq name (codes "INBOX")
    then some (λ r. r.status == 0)
    else if text_eq name (codes "Sent Messages")
    then some (λ r. r.status == 1)
    else if text_eq name (codes "Drafts")
    then some (λ r. r.status == 4)
    else if text_eq name (codes "Deleted Messages")
    then some (λ r. r.status == 3)
    else if text_eq name (codes "Junk")
    then some (λ r. r.status == 5)
    else elim (first
        (select (λ g. g.user_id == user_id && text_eq g.name (last_segment name)) groups)) [
          | none ↦ none
          | some g ↦ some (λ r. r.group_id == g.id)
        ]

-- The optional conditions: `id in (…)`, `id >= star`, `id <= end`.
unfoldable pub range_where : List ℕ → ℕ → ℕ → UserEmail → Bool
range_where uids star end r =
    (is_empty uids || any (λ i. i == r.id) uids)
    && ((star == 0 || leb star r.id) && (end == 0 || leb r.id end))

-- The selected columns, with `ROW_NUMBER() OVER (ORDER BY id)`.
unfoldable pub number_rows : ℕ → List UserEmail → List Item
number_rows n [] = []
number_rows n (r ∷ rs) =
    record { id = r.id; email_id = r.email_id; is_read = r.is_read; status = 0; serial_number = n }
    ∷ number_rows (n + 1) rs

-- `GetUEListByUID`
unfoldable pub ue_list_by_uid : List UserEmail → List Group → ℕ → Text → ℕ → ℕ → List ℕ → List Item
unfolding mailbox_where range_where number_rows
ue_list_by_uid rows groups user_id name star end uids = elim (mailbox_where name user_id groups) [
  | none ↦ []
  | some in_mailbox ↦
      number_rows 1
        (select (λ r. r.user_id == user_id && (range_where uids star end r && in_mailbox r)) rows)
]

-- Ids are the table's primary key.
abbrev pub FreshRow : ℕ → List UserEmail → Type 0
FreshRow id = All (λ r. (r.id == id) ≡ false)

abbrev pub DistinctRows : List UserEmail → Type 0
DistinctRows [] = Unit
DistinctRows (r ∷ rs) = FreshRow r.id rs × DistinctRows rs

number_rows-Fresh : (n id : ℕ) (rs : List UserEmail) → FreshRow id rs → Fresh id (number_rows n rs)
unfolding number_rows
number_rows-Fresh n id [] h = tt
number_rows-Fresh n id (r ∷ rs) h = (h.0, number_rows-Fresh (n + 1) id rs h.1)

number_rows-DistinctIds :
    (n : ℕ) (rs : List UserEmail) → DistinctRows rs → DistinctIds (number_rows n rs)
unfolding number_rows
number_rows-DistinctIds n [] h = tt
number_rows-DistinctIds n (r ∷ rs) h =
    (number_rows-Fresh (n + 1) r.id rs h.0, number_rows-DistinctIds (n + 1) rs h.1)

select-DistinctRows :
    (p : UserEmail → Bool) (rs : List UserEmail) → DistinctRows rs → DistinctRows (select p rs)
select-DistinctRows p [] h = tt
select-DistinctRows p (r ∷ rs) h = go (p r) (select-DistinctRows p rs h.1)
  where
    go :
        (b : Bool)
        → DistinctRows (select p rs)
        → DistinctRows (if b then r ∷ select p rs else select p rs)
    go true k = (All-select _ p rs h.0, k)
    go false k = k

-- The ids of a loaded mailbox are distinct if those of the table's rows are.
pub ue_list_by_uid-DistinctIds :
    (rows : List UserEmail) (groups : List Group) (user_id : ℕ) (name : Text) (star end : ℕ)
    (uids : List ℕ)
    → DistinctRows rows
    → DistinctIds (ue_list_by_uid rows groups user_id name star end uids)
unfolding ue_list_by_uid
ue_list_by_uid-DistinctIds rows groups user_id name star end uids h =
    go (mailbox_where name user_id groups)
  where
    go :
        (o : Option (UserEmail → Bool))
        → DistinctIds (elim o [
          | none ↦ []
          | some in_mailbox ↦ number_rows 1 (
              select
                (λ r. r.user_id == user_id && (range_where uids star end r && in_mailbox r))
                rows)
        ])
    go none = tt
    go (some p) = number_rows-DistinctIds 1 _ (select-DistinctRows _ rows h)

-- No loaded message shows one of the three flags that stand for a status.
abbrev pub NoStatusFlag : Item → Type 0
NoStatusFlag x =
    (has_flag x deleted ≡ false) × (has_flag x draft ≡ false) × (has_flag x junk ≡ false)

number_rows-NoStatusFlag : (n : ℕ) (rs : List UserEmail) → All NoStatusFlag (number_rows n rs)
unfolding number_rows has_flag
number_rows-NoStatusFlag n [] = tt
number_rows-NoStatusFlag n (r ∷ rs) = ((refl, refl, refl), number_rows-NoStatusFlag (n + 1) rs)

-- No message of a loaded mailbox, whatever the mailbox, has a flag that stands for a status.
pub ue_list_by_uid-NoStatusFlag :
    (rows : List UserEmail) (groups : List Group) (user_id : ℕ) (name : Text) (star end : ℕ)
    (uids : List ℕ)
    → All NoStatusFlag (ue_list_by_uid rows groups user_id name star end uids)
unfolding ue_list_by_uid
ue_list_by_uid-NoStatusFlag rows groups user_id name star end uids =
    go (mailbox_where name user_id groups)
  where
    go :
        (o : Option (UserEmail → Bool))
        → All NoStatusFlag (elim o [
          | none ↦ []
          | some in_mailbox ↦ number_rows 1 (
              select
                (λ r. r.user_id == user_id && (range_where uids star end r && in_mailbox r))
                rows)
        ])
    go none = tt
    go (some p) = number_rows-NoStatusFlag 1 _
