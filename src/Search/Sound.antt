-- ===== src/Search/Sound.antt =====
-- The search returns exactly the messages that meet the criteria, in the mailbox's order.
use mathlib.Core.Path.{ap₂}
use pmail.Base.{
  ℕ, ◌%◌, ◌^◌, ◌≡◌, refl, sym, ap, ◌∙◌, Bool, true, false, not, ◌&&◌, ◌||◌, List, [], ◌∷◌, ◌++◌,
  arith, if◌then◌else◌, is_empty, select, All, select_congr, select-true, All-map, All-of_forall,
  All-zip, if-select, Unicode,
}
use pmail.Search.{
  Item, Flag, NumSet, Keys, Criteria, criteria, Criterias, none_left, also_not, Pairs, no_pair,
  pair, needs_email_data, is_empty_criteria, no_ors,
}
use pmail.Search.Filters.{
  Mailbox, filter_by_uid_sets, filter_by_seq_num_sets, filter_by_flags, has_id, in_some_set,
  filter_with_email_data, passes_email, passes_flags,
}
use pmail.Search.Run.{with_ids, filter_keys, search, apply_nots, or_matches}
use pmail.Search.Spec.{meets_keys, meets, meets_no_not, meets_some_or}
use pmail.Search.Distinct.{
  DistinctIds, congr, then_select, has_id-Selects, without_ids-Selects, with_ids-Selects,
  has_id-nil, has_id-append,
}

module _ (u : Unicode) (set_contains : NumSet → ℕ → Bool) (mailbox : Mailbox) where
  filter_with_email_data-select :
      (items : List Item) (k : Keys)
      → mailbox.fetch_fails ≡ false
      → filter_with_email_data u mailbox items k ≡ select (passes_email u mailbox k) items
  unfolding filter_with_email_data
  filter_with_email_data-select [] k h = refl
  filter_with_email_data-select (x ∷ xs) k h = rw h

  email_step :
      (b : Bool) (items : List Item) (k : Keys)
      → mailbox.fetch_fails ≡ false
      → (if b then filter_with_email_data u mailbox items k else items)
        ≡ select (λ x. not b || passes_email u mailbox k x) items
  email_step true items k h = filter_with_email_data-select items k h
  email_step false items k h = sym (select-true items)

  flags_step :
      (f g : List Flag) (items : List Item)
      → (if is_empty f && is_empty g then items else filter_by_flags items f g)
        ≡ select (passes_flags f g) items
  unfolding filter_by_flags
  flags_step [] [] items = sym (select-true items)
  flags_step [] (y ∷ ys) items = refl
  flags_step (x ∷ xs) g items = refl

  filter_keys-meets :
      (k : Keys)
      → mailbox.fetch_fails ≡ false
      → filter_keys u set_contains mailbox k mailbox.items
        ≡ select (meets_keys u set_contains mailbox k) mailbox.items
  unfolding filter_keys filter_by_uid_sets filter_by_seq_num_sets
  filter_keys-meets k h =
      let base = mailbox.items in
      let in_uid : Item → Bool = λ x. in_some_set set_contains k.uid (x.id % 2 ^ 32) in
      let in_seq : Item → Bool =
        λ x. in_some_set set_contains k.seq_num (x.serial_number % 2 ^ 32) in
      let p : Item → Bool = λ x. is_empty k.uid || in_uid x in
      let q : Item → Bool = λ x. is_empty k.seq_num || in_seq x in
      let r : Item → Bool = λ x. not (needs_email_data k) || passes_email u mailbox k x in
      let by_uid = if-select (is_empty k.uid) in_uid base in
      let by_seq = if-select (is_empty k.seq_num) in_seq _ ∙ then_select base p q by_uid in
      let by_email =
        email_step (needs_email_data k) _ k h ∙ then_select base (λ x. p x && q x) r by_seq in
      flags_step k.flag k.not_flag _
      ∙ then_select base (λ x. (p x && q x) && r x) (passes_flags k.flag k.not_flag) by_email

  empty_meets :
      (c : Criteria) (x : Item)
      → is_empty_criteria c ≡ true
      → meets u set_contains mailbox c x ≡ true
  unfolding is_empty_criteria meets needs_email_data
  empty_meets (criteria k none_left no_pair) x h = ground arith
  empty_meets (criteria k none_left (pair a b ps)) x h = ground arith
  empty_meets (criteria k (also_not c cs) ors) x h = ground arith

unless_empty :
    (m : Item → Bool) (xs : List Item) {l : List Item}
    → l ≡ select m xs
    → (if is_empty xs then xs else l) ≡ select m xs
unless_empty m [] e = refl
unless_empty m (x ∷ xs) e = e

unless_no_criteria :
    (b : Bool) (m : Item → Bool) (xs : List Item) {l : List Item}
    → ((x : Item) → b ≡ true → m x ≡ true)
    → l ≡ select m xs
    → (if b then xs else l) ≡ select m xs
unless_no_criteria true m xs h e =
    sym (select-true xs) ∙ select_congr _ m xs (All-of_forall _ xs (λ x. sym (h x refl)))
unless_no_criteria false m xs h e = e

-- Boolean bookkeeping.
and_assoc : (a b c : Bool) → ((a && b) && c) ≡ (a && (b && c))
and_assoc a b c = ground arith

and_true_right : (a : Bool) → a ≡ (a && true)
and_true_right a = ground arith

and_last : (q b : Bool) → (q && (b && q)) ≡ (q && b)
and_last q b = ground arith

module _ (u : Unicode) (set_contains : NumSet → ℕ → Bool) (mailbox : Mailbox)
    (distinct : DistinctIds mailbox.items) (fetched : mailbox.fetch_fails ≡ false) where
  or_step :
      (o q : Item → Bool) (none_there : Bool) (m : List Item) {kept : List Item}
      → All (λ x. has_id m x.id ≡ (o x && q x)) mailbox.items
      → kept ≡ select q mailbox.items
      → (if none_there then kept else with_ids m kept)
        ≡ select (λ x. q x && (none_there || o x)) mailbox.items
  unfolding with_ids
  or_step o q true m h e =
      congr mailbox.items q _ (All-of_forall _ mailbox.items (λ x. ground arith)) e
  or_step o q false m h e =
      congr mailbox.items _ _
        (All-map _ _ mailbox.items (λ x k. ap (λ c. q x && c) k ∙ and_last (q x) (o x)) h)
        (then_select mailbox.items q (λ x. has_id m x.id) e)

  or_ids :
      (a b o q : Item → Bool) (l m n r : List Item)
      → l ≡ select q mailbox.items
      → m ≡ select a mailbox.items
      → n ≡ select b mailbox.items
      → All (λ x. has_id r x.id ≡ (o x && q x)) mailbox.items
      → All
          (λ x. has_id (with_ids l m ++ (with_ids l n ++ r)) x.id ≡ ((a x || b x || o x) && q x))
          mailbox.items
  or_ids a b o q l m n r dl dm dn h =
      let ia =
        has_id-Selects mailbox.items distinct _
          (with_ids-Selects mailbox.items distinct q a dl dm) in
      let ib =
        has_id-Selects mailbox.items distinct _
          (with_ids-Selects mailbox.items distinct q b dl dn) in
      All-map _ _ mailbox.items
        (λ x k.
          has_id-append (with_ids l m) (with_ids l n ++ r) x.id
          ∙ ap₂ (λ c d. c || d) k.0
              (has_id-append (with_ids l n) r x.id ∙ ap₂ (λ c d. c || d) k.1.0 k.1.1)
          ∙ spread (a x) (b x) (o x) (q x))
        (All-zip _ _ mailbox.items ia (All-zip _ _ mailbox.items ib h))
    where
      spread : (a b o q : Bool) → ((a && q) || ((b && q) || (o && q))) ≡ ((a || b || o) && q)
      spread a b o q = ground arith

  mutual
    unfolding search meets

    search_eq :
        (c : Criteria)
        → search u set_contains mailbox c ≡ select (meets u set_contains mailbox c) mailbox.items
    search_eq (criteria k nots ors) =
        let q : Item → Bool = meets_keys u set_contains mailbox k in
        let r : Item → Bool = λ x. q x && meets_no_not u set_contains mailbox nots x in
        let kept = nots_eq nots q _ (filter_keys-meets u set_contains mailbox k fetched) in
        let found =
          or_step (meets_some_or u set_contains mailbox ors) r (no_ors ors) _ (ors_eq ors r _ kept)
            kept in
        unless_empty _ mailbox.items (
          unless_no_criteria (is_empty_criteria (criteria k nots ors)) _ mailbox.items
            (empty_meets u set_contains mailbox (criteria k nots ors))
            (congr mailbox.items _ _
              (All-of_forall _ mailbox.items
                (λ x. and_assoc (q x) (meets_no_not u set_contains mailbox nots x) _))
              found))

    nots_eq :
        (cs : Criterias) (q : Item → Bool) (l : List Item)
        → l ≡ select q mailbox.items
        → apply_nots u set_contains mailbox cs l
          ≡ select (λ x. q x && meets_no_not u set_contains mailbox cs x) mailbox.items
    nots_eq none_left q l e =
        congr mailbox.items q _ (All-of_forall _ mailbox.items (λ x. and_true_right (q x))) e
    nots_eq (also_not c cs) q l e =
        congr mailbox.items _ _ (All-of_forall _ mailbox.items (λ x. and_assoc (q x) _ _)) (
          nots_eq cs (λ x. q x && not (meets u set_contains mailbox c x)) _
            (without_ids-Selects mailbox.items distinct _ q (search_eq c) e))

    ors_eq :
        (ps : Pairs) (q : Item → Bool) (l : List Item)
        → l ≡ select q mailbox.items
        → All
            (λ x.
              has_id (or_matches u set_contains mailbox ps l) x.id
              ≡ (meets_some_or u set_contains mailbox ps x && q x))
            mailbox.items
    ors_eq no_pair q l e = All-of_forall _ mailbox.items (λ x. has_id-nil x.id)
    ors_eq (pair a b ps) q l e =
        or_ids _ _ _ q l _ _ _ e (search_eq a) (search_eq b) (ors_eq ps q l e)

  -- If ids are distinct and the fetch of mails works, a search returns exactly the messages of the
  -- mailbox that meet the criteria, each once, in the mailbox's order, at any depth of `NOT` and
  -- `OR`; of several `OR` pairs one is enough.
  pub search-meets :
      (c : Criteria)
      → search u set_contains mailbox c ≡ select (meets u set_contains mailbox c) mailbox.items
  search-meets c = search_eq c
