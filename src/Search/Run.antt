-- ===== src/Search/Run.antt =====
-- services/list/imap_search.go: `SearchEmails` with `applyNotCriteria` and `applyOrCriteria`, which
-- search the mailbox anew for each nested criterion.
use pmail.Base.{ℕ, Bool, not, ◌&&◌, List, [], ◌++◌, if◌then◌else◌, is_empty, select, Unicode}
use pmail.Search.{
  Item, NumSet, Keys, Criteria, criteria, Criterias, none_left, also_not, Pairs, no_pair, pair,
  needs_email_data, is_empty_criteria, no_ors,
}
use pmail.Search.Filters.{
  Mailbox, filter_by_uid_sets, filter_by_seq_num_sets, filter_by_flags, has_id,
  filter_with_email_data,
}

-- The items of a list that are, or are not, in the set of matched ids.
unfoldable pub without_ids : List Item → List Item → List Item
without_ids matched items = select (λ x. not (has_id matched x.id)) items

unfoldable pub with_ids : List Item → List Item → List Item
with_ids matched items = select (λ x. has_id matched x.id) items

module _ (u : Unicode) (set_contains : NumSet → ℕ → Bool) (mailbox : Mailbox) where
  -- The steps of `SearchEmails` up to the flags.
  unfoldable pub filter_keys : Keys → List Item → List Item
  filter_keys k items =
      let by_uid = if is_empty k.uid then items else filter_by_uid_sets set_contains items k.uid in
      let by_seq =
        if is_empty k.seq_num
        then by_uid
        else filter_by_seq_num_sets set_contains by_uid k.seq_num in
      let by_email =
        if needs_email_data k then filter_with_email_data u mailbox by_seq k else by_seq in
      if is_empty k.flag && is_empty k.not_flag
      then by_email
      else filter_by_flags by_email k.flag k.not_flag

  unfoldable mutual
    -- `SearchEmails`
    pub search : Criteria → List Item
    search (criteria k nots ors) =
        let kept = apply_nots nots (filter_keys k mailbox.items) in
        let found = if no_ors ors then kept else with_ids (or_matches ors kept) kept in
        if is_empty mailbox.items
        then mailbox.items
        else if is_empty_criteria (criteria k nots ors)
        then mailbox.items
        else found

    -- The loop over `criteria.Not`, each turn of which is `applyNotCriteria`.
    pub apply_nots : Criterias → List Item → List Item
    apply_nots none_left items = items
    apply_nots (also_not c cs) items = apply_nots cs (without_ids (search c) items)

    -- The matches that `applyOrCriteria` collects in `resultUIDs`.
    pub or_matches : Pairs → List Item → List Item
    or_matches no_pair items = []
    or_matches (pair a b ps) items =
        with_ids items (search a) ++ (with_ids items (search b) ++ or_matches ps items)
