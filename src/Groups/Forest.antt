-- ===== src/Groups/Forest.antt =====
-- services/group/group.go: the table `group` stays a forest, and the recursions over it end.
use pmail.Base.{
  ℕ, suc, ◌+◌, ◌≤◌, ◌≡◌, refl, inl, inr, Bool, true, false, Option, none, some, List, [], ◌∷◌, ◌++◌,
  arith, ltb, ◌==◌, if◌then◌else◌, Bool-cases, All, All-append, All-map, All-select, All-zip, Text,
}
use mathlib.Core.Path.{subst}
use pmail.Groups.{
  Boxes, group_by_name, create_group, rename, del_ids, del_group, move_mail_to_group,
}
use pmail.Groups.Naming.{IsForest, Gives, first-All, layer_name-Gives, all_child_ids-Gives}
use pmail.Tables.{Group, UserEmail, update_where}

-- What changes the tables, with the statements that fail, for a user.
pub data Command : Type 0 where
  create_box : Bool → ℕ → Text → ℕ → Command
  rename_box : Bool → ℕ → Text → Text → Command
  del_box : Bool → Bool → ℕ → ℕ → Command
  move_mail : Bool → ℕ → List ℕ → ℕ → Command

abbrev pub tables_of : Option (Bool × Group × Boxes) → Option Boxes
tables_of none = none
tables_of (some (done, g, s)) = some s

abbrev pub tables_in {ℓ} : {A : Type ℓ} → Option (A × Boxes) → Option Boxes
tables_in none = none
tables_in (some r) = some r.1

-- The tables after a command, on fuel.
unfoldable pub step : ℕ → Command → Boxes → Option Boxes
step fuel (create_box fails user_id name parent_id) s =
    tables_of (create_group fuel fails user_id name parent_id s)
step fuel (rename_box fails user_id old_name new_name) s =
    tables_in (rename fuel fails user_id old_name new_name s)
step fuel (del_box fails fails_too user_id group_id) s =
    tables_in (del_group fuel fails fails_too user_id group_id s)
step fuel (move_mail fails user_id mail_ids group_id) s =
    some (move_mail_to_group fails user_id mail_ids group_id s).1

-- A mailbox is created below one whose id has been given out, or below none.
abbrev Allowed : Command → Boxes → Type 0
Allowed (create_box fails user_id name parent_id) s = parent_id ≤ s.last_group_id
Allowed (rename_box fails user_id old_name new_name) s = Unit
Allowed (del_box fails fails_too user_id group_id) s = Unit
Allowed (move_mail fails user_id mail_ids group_id) s = Unit

-- The tables that commands reach from tables without groups.
pub data Reached : Boxes → Type 0 where
  no_groups :
      (rows : List UserEmail)
      → Reached (record { groups = []; last_group_id = 0; user_emails = rows })
  after :
      (s s' : Boxes) (c : Command)
      → Reached s
      → Allowed c s
      → step (suc s.last_group_id) c s ≡ some s'
      → Reached s'

update_where-All :
    (P : Group → Type 0) (p : Group → Bool) (f : Group → Group) (gs : List Group)
    → ((g : Group) → P g → P (f g))
    → All P gs
    → All P (update_where p f gs)
update_where-All P p f [] k h = tt
update_where-All P p f (g ∷ gs) k h = (here (p g), update_where-All P p f gs k h.1)
  where
    here : (b : Bool) → P (if b then f g else g)
    here true = k g h.0
    here false = h.0

-- There are tables, and they are a forest.
abbrev pub Grown : Option Boxes → Type 0
Grown none = ⊥
Grown (some s) = IsForest s

Grown-in {ℓ} :
    {A : Type ℓ} (b : Bool) (x y : Option (A × Boxes))
    → Grown (tables_in x)
    → Grown (tables_in y)
    → Grown (tables_in (if b then x else y))
Grown-in true x y h k = h
Grown-in false x y h k = k

inserted-IsForest :
    (g : Group) (s : Boxes)
    → IsForest s
    → g.id ≡ s.last_group_id + 1
    → g.parent_id ≤ s.last_group_id
    → IsForest (record s { groups = s.groups ++ g ∷ []; last_group_id = s.last_group_id + 1 })
inserted-IsForest g s h e le = record {
  ids_given =
      All-append _ s.groups (g ∷ [])
        (All-map _ _ s.groups (λ x k. (k.0, omega (arith, k.1))) h.ids_given)
        ((omega (arith, e), omega (arith, e)), tt);
  parents_first = All-append _ s.groups (g ∷ []) h.parents_first (omega (arith, e, le), tt);
}

-- There is a group with an id that has been given out, and the tables are a forest.
abbrev pub Made : Option (Bool × Group × Boxes) → Type 0
Made none = ⊥
Made (some (made, g, s)) = IsForest s × (g.id ≤ s.last_group_id)

if-Made :
    (b : Bool) (x y : Option (Bool × Group × Boxes)) → Made x → Made y → Made (if b then x else y)
if-Made true x y h k = h
if-Made false x y h k = k

named_id_given :
    (user_id : ℕ) (name : Text) (s : Boxes)
    → IsForest s
    → (group_by_name s.groups user_id name).id ≤ s.last_group_id
unfolding group_by_name
named_id_given user_id name s h =
    first-All (λ g. g.id ≤ s.last_group_id) _ (omega arith)
      (All-select _ _ s.groups (All-map _ _ s.groups (λ g k. k.1) h.ids_given))

pub create_group-Made :
    (fails : Bool) (user_id : ℕ) (name : Text) (parent_id : ℕ) (s : Boxes)
    → IsForest s
    → parent_id ≤ s.last_group_id
    → Made (create_group (suc s.last_group_id) fails user_id name parent_id s)
unfolding create_group
create_group-Made fails user_id name parent_id s h le =
    elim (Bool-cases (ltb 0 (group_by_name s.groups user_id name).id)) [
      | inl e ↦ rw e (h, named_id_given user_id name s h)
      | inr e ↦
          let (path, k) =
            layer_name-Gives s.last_group_id s.groups name parent_id h.parents_first le in
          rw e (
            rw k
              (if-Made fails _ _ (h, omega arith) (inserted-IsForest _ s h refl le, omega arith)))
    ]

Made-Grown : (o : Option (Bool × Group × Boxes)) → Made o → Grown (tables_of o)
Made-Grown none m = m
Made-Grown (some (made, g, s)) m = m.0

-- The parent of the group that a name finds.
named_parent_below :
    (user_id : ℕ) (name : Text) (s : Boxes)
    → IsForest s
    → (group_by_name s.groups user_id name).parent_id ≤ s.last_group_id
unfolding group_by_name
named_parent_below user_id name s h =
    first-All (λ g. g.parent_id ≤ s.last_group_id) _ (omega arith)
      (All-select _ _ s.groups (
        All-map _ _ s.groups (λ g k. omega (arith, k.0.1, k.1))
          (All-zip _ _ s.groups h.ids_given h.parents_first)))

rename-Grown :
    (fails : Bool) (user_id : ℕ) (old_name new_name : Text) (s : Boxes)
    → IsForest s
    → Grown (tables_in (rename (suc s.last_group_id) fails user_id old_name new_name s))
unfolding rename
rename-Grown fails user_id old_name new_name s h =
    let old = group_by_name s.groups user_id old_name in
    elim (Bool-cases (old.id == 0)) [
      | inl e ↦ rw e h
      | inr e ↦
          let (path, k) =
            layer_name-Gives s.last_group_id s.groups new_name old.parent_id h.parents_first
              (named_parent_below user_id old_name s h) in
          rw e (
            rw k (
              Grown-in fails _ _ h (record {
                ids_given = update_where-All _ _ _ s.groups (λ g x. x) h.ids_given;
                parents_first = update_where-All _ _ _ s.groups (λ g x. x) h.parents_first;
              })))
    ]

del_group-Grown :
    (fails fails_too : Bool) (user_id group_id : ℕ) (s : Boxes)
    → IsForest s
    → Grown (tables_in (del_group (suc s.last_group_id) fails fails_too user_id group_id s))
unfolding del_group del_ids
del_group-Grown fails fails_too user_id group_id s h =
    let (ids, k) =
      all_child_ids-Gives s.last_group_id s.groups user_id group_id s.last_group_id
        (All-map _ _ s.groups (λ g x. x.1) h.ids_given) h.parents_first (omega arith) in
    rw (Grown, tables_in, k) (deleted fails fails_too (ids ++ group_id ∷ []))
  where
    deleted : (b c : Bool) (ids : List ℕ) → IsForest (del_ids b c user_id ids s).1
    deleted true c ids = h
    deleted false true ids = record {
      ids_given = All-select _ _ s.groups h.ids_given;
      parents_first = All-select _ _ s.groups h.parents_first;
    }
    deleted false false ids = record {
      ids_given = All-select _ _ s.groups h.ids_given;
      parents_first = All-select _ _ s.groups h.parents_first;
    }

step-Grown :
    (c : Command) (s : Boxes) → IsForest s → Allowed c s → Grown (step (suc s.last_group_id) c s)
unfolding step move_mail_to_group
step-Grown (create_box fails user_id name parent_id) s h k =
    Made-Grown _ (create_group-Made fails user_id name parent_id s h k)
step-Grown (rename_box fails user_id old_name new_name) s h k =
    rename-Grown fails user_id old_name new_name s h
step-Grown (del_box fails fails_too user_id group_id) s h k =
    del_group-Grown fails fails_too user_id group_id s h
step-Grown (move_mail true user_id mail_ids group_id) s h k = h
step-Grown (move_mail false user_id mail_ids group_id) s h k = record {
  ids_given = h.ids_given;
  parents_first = h.parents_first;
}

-- In the tables that commands reach, every group has an id that has been given out, above the id of
-- its parent, if no command creates a mailbox below an id that has not been given out.
pub Reached-IsForest : (s : Boxes) → Reached s → IsForest s
Reached-IsForest _ (no_groups rows) = record { ids_given = tt; parents_first = tt }
Reached-IsForest _ (after s s' c r k e) = subst Grown e (step-Grown c s (Reached-IsForest s r) k)

-- In the tables that commands reach, every command ends, on fuel one above the last id, if it creates
-- no mailbox below an id that has not been given out.
pub step-Gives :
    (s : Boxes) (c : Command) → Reached s → Allowed c s → Gives (step (suc s.last_group_id) c s)
step-Gives s c r k =
    Grown-Gives (step (suc s.last_group_id) c s) (step-Grown c s (Reached-IsForest s r) k)
  where
    Grown-Gives : (o : Option Boxes) → Grown o → Gives o
    Grown-Gives none g = absurd g
    Grown-Gives (some s) g = (s, refl)
