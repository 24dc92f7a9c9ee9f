-- ===== src/Imap/Mailboxes.antt =====
-- listen/imap_server: session_create.go, session_delete.go and session_rename.go.
use pmail.Base.{
  ℕ, suc, ◌≤◌, ◌≡◌, refl, ◌≢◌, inr, Bool, true, false, Option, none, some, List, [], ◌∷◌, arith,
  if◌then◌else◌, In, Text, split,
}
use mathlib.Core.Path.{subst}
use pmail.Groups.{Boxes, group_by_name, create_group, rename, del_group}
use pmail.Groups.Forest.{Grown, Made, create_group-Made, tables_in}
use pmail.Groups.Naming.{IsForest}
use pmail.Groups.Removed.{del_group-Removes}
use pmail.Groups.Under.{Rooted, Rooted-Under}
use pmail.Imap.{is_default_box}
use pmail.Search.Load.{last_segment}
use pmail.Tables.{Group}

-- The loop of `Create`; `fails` says which inserts fail. The fuel of a call exceeds the last id.
unfoldable create_path : (Text → Bool) → ℕ → ℕ → List Text → Boxes → Option (Bool × Boxes)
create_path fails user_id parent_id [] s = some (true, s)
create_path fails user_id parent_id (name ∷ names) s =
    elim (create_group (suc s.last_group_id) (fails name) user_id name parent_id s) [
      | none ↦ none
      | some (made, g, s') ↦
          let rest = create_path fails user_id g.id names s' in
          if made then rest else some (false, s')
    ]

-- `Create`
unfoldable create : (Text → Bool) → ℕ → Text → Boxes → Option (Bool × Boxes)
unfolding create_path
create fails user_id mailbox s = create_path fails user_id 0 (split b'/' mailbox) s

-- `Delete`; the missing group's id is 0.
unfoldable pub delete : Bool → Bool → ℕ → Text → Boxes → Option (Option Bool × Boxes)
unfolding last_segment group_by_name
delete fails fails_too user_id mailbox s =
    del_group (suc s.last_group_id) fails fails_too user_id
      (group_by_name s.groups user_id (last_segment mailbox)).id s

-- `Rename`
unfoldable rename_mailbox : Bool → ℕ → Text → Text → Boxes → Option (Bool × Boxes)
unfolding is_default_box last_segment
rename_mailbox fails user_id mailbox new_name s =
    let renamed =
      rename (suc s.last_group_id) fails user_id (last_segment mailbox) (last_segment new_name) s in
    if is_default_box mailbox then some (false, s) else renamed

create_path-Grown :
    (fails : Text → Bool) (user_id parent_id : ℕ) (names : List Text) (s : Boxes)
    → IsForest s
    → parent_id ≤ s.last_group_id
    → Grown (tables_in (create_path fails user_id parent_id names s))
unfolding create_path
create_path-Grown fails user_id parent_id [] s h le = h
create_path-Grown fails user_id parent_id (name ∷ names) s h le =
    go (create_group (suc s.last_group_id) (fails name) user_id name parent_id s)
      (create_group-Made (fails name) user_id name parent_id s h le)
      (λ i. create_path-Grown fails user_id i names)
  where
    next :
        (made : Bool) (i : ℕ) (s' : Boxes)
        → IsForest s'
        → Grown (tables_in (create_path fails user_id i names s'))
        → Grown
            (tables_in (if made then create_path fails user_id i names s' else some (false, s')))
    next true i s' f k = k
    next false i s' f k = f

    go :
        (o : Option (Bool × Group × Boxes))
        → Made o
        → ((i : ℕ) (t : Boxes)
            → IsForest t
            → i ≤ t.last_group_id
            → Grown (tables_in (create_path fails user_id i names t)))
        → Grown (
            tables_in (elim o as (λ _. Option (Bool × Boxes)) [
              | none ↦ none
              | some (made, g, s') ↦
                  if made then create_path fails user_id g.id names s' else some (false, s')
            ]))
    go none m later = absurd m
    go (some (made, g, s')) m later = next made g.id s' m.0 (later g.id s' m.0 m.1)

-- On a forest of groups CREATE ends, whatever the path and whichever inserts fail, and leaves a forest.
create-ends :
    (fails : Text → Bool) (user_id : ℕ) (mailbox : Text) (s : Boxes)
    → IsForest s
    → (made : Bool) × (s' : Boxes) × (create fails user_id mailbox s ≡ some (made, s'))
      × IsForest s'
unfolding create
create-ends fails user_id mailbox s h =
    go (create_path fails user_id 0 (split b'/' mailbox) s)
      (create_path-Grown fails user_id 0 (split b'/' mailbox) s h (omega arith))
  where
    go :
        (o : Option (Bool × Boxes))
        → Grown (tables_in o)
        → (made : Bool) × (s' : Boxes) × (o ≡ some (made, s')) × IsForest s'
    go none g = absurd g
    go (some (made, s')) g = (made, s', refl, g)

-- DELETE of a mailbox whose last segment names none of the user's groups, which ends without an SQL
-- error, leaves the user no group at all, if the groups are a forest in which each of the user's groups
-- is at the top or below another of them.
pub delete_missing-empties :
    (user_id : ℕ) (mailbox : Text) (s s' : Boxes) (deleted : Option Bool) (g : Group)
    → IsForest s
    → Rooted user_id s.groups
    → (group_by_name s.groups user_id (last_segment mailbox)).id ≡ 0
    → delete false false user_id mailbox s ≡ some (deleted, s')
    → In g s'.groups
    → g.user_id ≢ user_id
unfolding delete
delete_missing-empties user_id mailbox s s' deleted g h rooted missing e m own =
    let all_of =
      subst (λ i. del_group (suc s.last_group_id) false false user_id i s ≡ some (deleted, s'))
        missing e in
    let (kept, clash) =
      ((del_group-Removes (suc s.last_group_id) user_id 0 s s' deleted all_of).0 g).0 m in
    clash (
      own,
      inr (Rooted-Under g.id user_id s.groups g h.parents_first rooted kept own (omega arith)),
    )
