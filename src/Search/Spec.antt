-- ===== src/Search/Spec.antt =====
-- What a search key means for one message, with no list and no set: RFC 3501, section 6.4.4. Keys
-- stand in conjunction, with `NOT` and `OR` as connectives, but of several `OR` pairs one is enough.
use pmail.Base.{ℕ, ◌%◌, ◌^◌, Bool, true, false, not, ◌&&◌, ◌||◌, List, is_empty, Unicode}
use pmail.Search.{
  Item, NumSet, Keys, Criteria, criteria, Criterias, none_left, also_not, Pairs, no_pair, pair,
  needs_email_data, no_ors,
}
use pmail.Search.Filters.{Mailbox, in_some_set, passes_flags, passes_email}

module _ (u : Unicode) (set_contains : NumSet → ℕ → Bool) (mailbox : Mailbox) where
  -- A list of sets that is empty is no key.
  abbrev pub meets_sets : List NumSet → ℕ → Bool
  meets_sets sets n = is_empty sets || in_some_set set_contains sets n

  abbrev pub meets_keys : Keys → Item → Bool
  meets_keys k x =
      ((meets_sets k.uid (x.id % 2 ^ 32) && meets_sets k.seq_num (x.serial_number % 2 ^ 32))
        && (not (needs_email_data k) || passes_email u mailbox k x))
      && passes_flags k.flag k.not_flag x

  unfoldable mutual
    -- The message meets the criteria; one of the `OR` pairs, if there are any, has to hold.
    pub meets : Criteria → Item → Bool
    meets (criteria k nots ors) x =
        meets_keys k x && (meets_no_not nots x && (no_ors ors || meets_some_or ors x))

    pub meets_no_not : Criterias → Item → Bool
    meets_no_not none_left x = true
    meets_no_not (also_not c cs) x = not (meets c x) && meets_no_not cs x

    pub meets_some_or : Pairs → Item → Bool
    meets_some_or no_pair x = false
    meets_some_or (pair a b ps) x = meets a x || meets b x || meets_some_or ps x
