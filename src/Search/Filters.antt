-- ===== src/Search/Filters.antt =====
-- services/list/imap_search.go: `matchesEmailCriteria` and the filters of `SearchEmails`.
use pmail.Base.{
  ℕ, ◌%◌, ◌^◌, Bool, false, not, ◌&&◌, ◌||◌, Option, none, some, List, [], ◌∷◌, ◌==◌, if◌then◌else◌,
  is_empty, any, all, select, Text, codes, text_eq, contains, Unicode, to_lower,
}
use pmail.Search.{
  Item, Email, Flag, NumSet, Keys, has_flag, passes_since, passes_before, passes_larger,
  passes_smaller,
}

module _ (u : Unicode) where
  -- `strings.Contains(strings.ToLower(field), value)`, with `value` in lower case
  unfoldable pub contains_lower : Text → Text → Bool
  contains_lower field value = contains (to_lower u field) value

  -- The `switch` of `matchesHeader`, on the lower-case key and value.
  unfoldable pub header_contains : Email → Text → Text → Bool
  unfolding contains_lower
  header_contains e key value =
      if text_eq key (codes "subject")
      then contains_lower e.subject value
      else if text_eq key (codes "from")
      then contains_lower e.from_address value || contains_lower e.from_name value
      else if text_eq key (codes "to")
      then contains_lower e.to value
      else if text_eq key (codes "cc")
      then contains_lower e.cc value
      else if text_eq key (codes "bcc")
      then contains_lower e.bcc value
      else if text_eq key (codes "reply-to")
      then contains_lower e.reply_to value
      else if text_eq key (codes "sender")
      then contains_lower e.sender value
      else false

  -- `matchesHeader`
  unfoldable pub matches_header : Email → Text × Text → Bool
  unfolding header_contains
  matches_header e (key, value) = header_contains e (to_lower u key) (to_lower u value)

  abbrev null_contains : Option Text → Text → Bool
  null_contains none value = false
  null_contains (some s) value = contains_lower s value

  -- `matchesBody`, on the lower-case pattern
  unfoldable pub body_contains : Email → Text → Bool
  unfolding contains_lower
  body_contains e value = null_contains e.text value || null_contains e.html value

  unfoldable pub matches_body : Email → Text → Bool
  unfolding body_contains
  matches_body e pattern = body_contains e (to_lower u pattern)

  -- `matchesText`: it hands the lower-case pattern on to `matchesBody`.
  unfoldable pub matches_text : Email → Text → Bool
  unfolding contains_lower matches_body
  matches_text e pattern =
      let value = to_lower u pattern in
      contains_lower e.subject value
      || contains_lower e.from_address value
      || contains_lower e.from_name value
      || contains_lower e.to value
      || contains_lower e.cc value
      || contains_lower e.bcc value
      || matches_body e value

  -- `matchesEmailCriteria`
  unfoldable pub matches_email_criteria : Keys → Email → Bool
  matches_email_criteria k e =
      passes_since e.create_time k.since
      && passes_before e.create_time k.before
      && passes_since e.send_date k.sent_since
      && passes_before e.send_date k.sent_before
      && passes_larger e.size k.larger
      && passes_smaller e.size k.smaller
      && all (matches_header e) k.header
      && all (matches_body e) k.body
      && all (matches_text e) k.text

-- `emailMap[id]`
unfoldable pub find_email : ℕ → List Email → Option Email
find_email id [] = none
find_email id (e ∷ es) = if e.id == id then some e else find_email id es

-- Whether some set of the list holds the number.
abbrev pub in_some_set : (NumSet → ℕ → Bool) → List NumSet → ℕ → Bool
in_some_set set_contains sets n = any (λ s. set_contains s n) sets

-- `filterByUIDSets`, which turns the id into a uint32.
unfoldable pub filter_by_uid_sets : (NumSet → ℕ → Bool) → List Item → List NumSet → List Item
filter_by_uid_sets set_contains items sets =
    select (λ x. in_some_set set_contains sets (x.id % 2 ^ 32)) items

-- `filterBySeqNumSets`
unfoldable pub filter_by_seq_num_sets : (NumSet → ℕ → Bool) → List Item → List NumSet → List Item
filter_by_seq_num_sets set_contains items sets =
    select (λ x. in_some_set set_contains sets (x.serial_number % 2 ^ 32)) items

-- The test of `filterByFlags` on one item.
abbrev pub passes_flags : List Flag → List Flag → Item → Bool
passes_flags flags not_flags x = all (has_flag x) flags && not (any (has_flag x) not_flags)

-- `filterByFlags`
unfoldable pub filter_by_flags : List Item → List Flag → List Flag → List Item
filter_by_flags items flags not_flags = select (passes_flags flags not_flags) items

-- `map[int]bool` over the ids of a list
unfoldable pub has_id : List Item → ℕ → Bool
has_id items id = any (λ x. x.id == id) items

-- What `SearchEmails` meets: the mailbox, the table of mails, whether the fetch of mails fails.
pub record Mailbox : Type 0 where
  pub items : List Item
  pub emails : List Email
  pub fetch_fails : Bool

module _ (u : Unicode) (mailbox : Mailbox) where
  -- The test of `filterWithEmailData` on one item.
  abbrev pub passes_email : Keys → Item → Bool
  passes_email k x = elim (find_email x.email_id mailbox.emails) [
    | none ↦ false
    | some e ↦ matches_email_criteria u k e
  ]

  -- `filterWithEmailData`: a fetch that fails filters nothing.
  unfoldable pub filter_with_email_data : List Item → Keys → List Item
  filter_with_email_data items k =
      if is_empty items
      then items
      else if mailbox.fetch_fails
      then items
      else select (passes_email k) items
