-- ===== src/Groups/Cycle.antt =====
-- services/group/group.go: a group that is its own parent.
use pmail.Base.{
  ℕ, zero, suc, ◌+◌, ◌≡◌, refl, sym, ap, ◌∙◌, inl, inr, Bool, true, false, Option, none, some, List,
  [], ◌∷◌, arith, ltb, Option-cases, In, In-select, In-last, Text,
}
use mathlib.Core.Path.{subst}
use pmail.Groups.{
  Boxes, group_by_name, layer_name, child_rows, collect, all_child_ids, create_group, del_group,
}
use pmail.Groups.Forest.{tables_of}
use pmail.Tables.{Group}

collect-none :
    (f : ℕ → Option (List ℕ)) (g : Group) (gs : List Group)
    → In g gs
    → f g.id ≡ none
    → collect f gs ≡ none
unfolding collect
collect-none f g [] m e = absurd m
collect-none f g (x ∷ xs) (inl d) e =
    let k : f x.id ≡ none = ap (λ y. f y.id) (sym d) ∙ e in rw (collect, k) refl
collect-none f g (x ∷ xs) (inr m) e = elim (Option-cases (f x.id)) [
  | inl k ↦ rw (collect, k) refl
  | inr r ↦ rw (collect, r.1, collect-none f g xs m e) refl
]

own_child-Loops :
    (g : Group) (gs : List Group) (n : ℕ)
    → In g gs
    → g.parent_id ≡ g.id
    → all_child_ids n gs g.user_id g.id ≡ none
unfolding all_child_ids
own_child-Loops g gs zero m e = refl
own_child-Loops g gs (suc n) m e =
    collect-none (all_child_ids n gs g.user_id) g (child_rows gs g.user_id g.id)
      (In-select _ g gs m (ground (arith, e))) (own_child-Loops g gs n m e)

del_own_child :
    (g : Group) (s : Boxes) (n : ℕ) (fails fails_too : Bool)
    → In g s.groups
    → g.parent_id ≡ g.id
    → del_group n fails fails_too g.user_id g.id s ≡ none
unfolding del_group
del_own_child g s n fails fails_too m e = rw (del_group, own_child-Loops g s.groups n m e) refl

abbrev Looping : ℕ → Bool → Bool → ℕ → ℕ → Option Boxes → Type 0
Looping n fails fails_too user_id group_id none = Unit
Looping n fails fails_too user_id group_id (some s) =
    del_group n fails fails_too user_id group_id s ≡ none

created-Looping :
    (fuel n user_id : ℕ) (name : Text) (s : Boxes) (fails fails_too : Bool)
    → ltb 0 (group_by_name s.groups user_id name).id ≡ false
    → Looping n fails fails_too user_id
        (s.last_group_id + 1)
        (tables_of (create_group fuel false user_id name (s.last_group_id + 1) s))
unfolding create_group
created-Looping fuel n user_id name s fails fails_too e =
    elim (Option-cases (layer_name fuel s.groups name (s.last_group_id + 1))) [
      | inl k ↦ rw e (rw k tt)
      | inr (path, k) ↦ rw e (rw k (del_own_child _ _ n fails fails_too (In-last _ s.groups) refl))
    ]

-- A mailbox created below the next id, under a name that its user does not have, is its own parent: the
-- deletion of it never ends, whatever the fuel.
pub create_below_itself :
    (fuel n user_id : ℕ) (name : Text) (s s' : Boxes) (g : Group) (fails fails_too : Bool)
    → ltb 0 (group_by_name s.groups user_id name).id ≡ false
    → create_group fuel false user_id name (s.last_group_id + 1) s ≡ some (true, g, s')
    → del_group n fails fails_too user_id (s.last_group_id + 1) s' ≡ none
create_below_itself fuel n user_id name s s' g fails fails_too e k =
    subst (Looping n fails fails_too user_id (s.last_group_id + 1)) (ap tables_of k)
      (created-Looping fuel n user_id name s fails fails_too e)
