-- ===== src/Search/StatusFlags.antt =====
-- services/list: the flags that stand for a status, in a search of a loaded mailbox.
use mathlib.Core.Path.{subst}
use pmail.Base.{
  ℕ, ◌≡◌, refl, sym, ◌∙◌, ◌⊎◌, inl, inr, Bool, false, ◌&&◌, List, [], ◌∷◌, arith, select, All,
  All-map, Text, Unicode,
}
use pmail.Tables.{UserEmail, Group}
use pmail.Search.{
  Item, Flag, deleted, draft, junk, NumSet, Keys, criteria, Criterias, Pairs, has_flag,
}
use pmail.Search.Filters.{Mailbox}
use pmail.Search.Load.{
  ue_list_by_uid, DistinctRows, ue_list_by_uid-DistinctIds, NoStatusFlag,
  ue_list_by_uid-NoStatusFlag,
}
use pmail.Search.Run.{search}
use pmail.Search.Distinct.{DistinctIds}
use pmail.Search.Sound.{search-meets}
use pmail.Search.Spec.{meets}

false_right : (a : Bool) → (a && false) ≡ false
false_right a = ground arith

-- A test that never passes selects nothing.
select-false : (p : Item → Bool) (xs : List Item) → All (λ x. p x ≡ false) xs → select p xs ≡ []
select-false p [] h = refl
select-false p (x ∷ xs) h = rw (h.0) (select-false p xs h.1)

-- If the ids of the table's rows are distinct and the fetch of mails works, a search whose first
-- flag is Deleted, Draft or Junk finds no message of any mailbox that is loaded from the table, be
-- it the mailbox of the deleted messages: the rows are loaded without their status.
pub search_status_flag :
    (u : Unicode) (set_contains : NumSet → ℕ → Bool) (mailbox : Mailbox) (rows : List UserEmail)
    (groups : List Group) (user_id : ℕ) (name : Text) (k : Keys) (nots : Criterias) (ors : Pairs)
    (f : Flag) (fs : List Flag)
    → DistinctRows rows
    → mailbox.items ≡ ue_list_by_uid rows groups user_id name 0 0 []
    → mailbox.fetch_fails ≡ false
    → k.flag ≡ f ∷ fs
    → (f ≡ deleted) ⊎ ((f ≡ draft) ⊎ (f ≡ junk))
    → search u set_contains mailbox (criteria k nots ors) ≡ []
search_status_flag u set_contains mailbox rows groups user_id name k nots ors f fs dr loaded fetched
      kf hf =
    let distinct =
      subst DistinctIds (sym loaded)
        (ue_list_by_uid-DistinctIds rows groups user_id name 0 0 [] dr) in
    let flags =
      subst (All NoStatusFlag) (sym loaded)
        (ue_list_by_uid-NoStatusFlag rows groups user_id name 0 0 []) in
    search-meets u set_contains mailbox distinct fetched (criteria k nots ors)
    ∙ select-false _ mailbox.items
        (All-map NoStatusFlag _ mailbox.items (λ x h. unmet x (no_flag x h)) flags)
  where
    no_flag : (x : Item) → NoStatusFlag x → has_flag x f ≡ false
    no_flag x h = elim hf [
      | inl e ↦ rw e h.0
      | inr r ↦ elim r [ inl e ↦ rw e h.1 | inr e ↦ rw e h.2 ]
    ]

    unmet :
        (x : Item)
        → has_flag x f ≡ false
        → meets u set_contains mailbox (criteria k nots ors) x ≡ false
    unmet x h = unfold meets in rw (kf, h, false_right _)
