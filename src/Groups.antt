-- ===== src/Groups.antt =====
-- services/group/group.go: the mailboxes that users make, a forest in the table `group`. Reads of the
-- tables do not fail here; writes may. `none` from a function on fuel means that the fuel ran out.
pub mod Naming
pub mod Forest
pub mod Cycle
pub mod Tree
pub mod Under
pub mod Removed
use pmail.Base.{
  ℕ, zero, suc, ◌+◌, Bool, true, false, ◌&&◌, Option, none, some, List, [], ◌∷◌, ◌++◌, ltb, ◌==◌,
  if◌then◌else◌, length, any, select, Text, codes, text_eq,
}
use pmail.Tables.{UserEmail, Group, first, update_where, delete_where}

-- The tables `group` and `user_email`, with the last id that the first has given out.
pub record Boxes : Type 0 where
  pub groups : List Group
  pub last_group_id : ℕ
  pub user_emails : List UserEmail

-- What `Get` leaves in a `Group` where no row fits.
abbrev pub no_group : Group
no_group = record { id = 0; name = []; parent_id = 0; user_id = 0; full_path = [] }

abbrev pub or_no_group : Option Group → Group
or_no_group none = no_group
or_no_group (some g) = g

-- `Where("id=?", …).Get(&parent)`
unfoldable pub group_by_id : List Group → ℕ → Group
group_by_id groups id = or_no_group (first (select (λ g. g.id == id) groups))

-- `GetGroupByName`
unfoldable pub group_by_name : List Group → ℕ → Text → Group
group_by_name groups user_id name =
    or_no_group (first (select (λ g. text_eq g.name name && g.user_id == user_id) groups))

-- `GetGroupByFullPath`
unfoldable pub group_by_full_path : List Group → ℕ → Text → Group
group_by_full_path groups user_id path =
    or_no_group (first (select (λ g. text_eq g.full_path path && g.user_id == user_id) groups))

-- `GetGroupList`
unfoldable group_list : List Group → ℕ → List Group
group_list groups user_id = select (λ g. g.user_id == user_id) groups

abbrev join_path : Text → Option Text → Option Text
join_path name none = none
join_path name (some path) = some (path ++ (codes "/" ++ name))

-- `getLayerName` with `allPath`, of a group with this name and this parent. It climbs from parent to
-- parent and asks nothing else of the table.
unfoldable pub layer_name : ℕ → List Group → Text → ℕ → Option Text
unfolding group_by_id
layer_name zero groups name parent_id = none
layer_name (suc n) groups name parent_id =
    let parent = group_by_id groups parent_id in
    let above = layer_name n groups parent.name parent.parent_id in
    if parent_id == 0 then some name else join_path name above

-- `Where("parent_id=? and user_id=?", …).Find(…)`
abbrev pub child_rows : List Group → ℕ → ℕ → List Group
child_rows groups user_id root = select (λ g. g.parent_id == root && g.user_id == user_id) groups

-- The loop of `getAllChildId`, on the call that it makes for each row.
unfoldable pub collect : (ℕ → Option (List ℕ)) → List Group → Option (List ℕ)
collect below [] = some []
collect below (g ∷ gs) = elim (below g.id) [
  | none ↦ none
  | some ids ↦ elim (collect below gs) [ none ↦ none | some rest ↦ some (ids ++ g.id ∷ rest) ]
]

-- `getAllChildId`
unfoldable pub all_child_ids : ℕ → List Group → ℕ → ℕ → Option (List ℕ)
unfolding collect
all_child_ids zero groups user_id root = none
all_child_ids (suc n) groups user_id root =
    collect (all_child_ids n groups user_id) (child_rows groups user_id root)

-- A list of `GroupItem`s: id, label, tag and children of the first, then the others.
pub data Items : Type 0 where
  no_item : Items
  item : ℕ → Text → Text → Items → Items → Items

module _ (tag : ℕ → Text) where
  -- The loop of `buildChildren`; `tag` prints the search tag of a group.
  unfoldable pub build_rows : (ℕ → Option Items) → List Group → Option Items
  build_rows below [] = some no_item
  build_rows below (g ∷ gs) = elim (below g.id) [
    | none ↦ none
    | some children ↦ elim (build_rows below gs) [
      | none ↦ none
      | some rest ↦ some (item g.id g.name (tag g.id) children rest)
    ]
  ]

  -- `buildChildren`
  unfoldable pub build_children : ℕ → List Group → ℕ → ℕ → Option Items
  unfolding build_rows
  build_children zero groups user_id parent_id = none
  build_children (suc n) groups user_id parent_id =
      build_rows (build_children n groups user_id) (child_rows groups user_id parent_id)

-- `CreateGroup`: the group and the tables, or the insert's failure. A name that the user has already,
-- under whatever parent, creates nothing.
unfoldable pub create_group : ℕ → Bool → ℕ → Text → ℕ → Boxes → Option (Bool × Group × Boxes)
unfolding group_by_name
create_group fuel insert_fails user_id name parent_id s =
    let old = group_by_name s.groups user_id name in
    if ltb 0 old.id then some (true, old, s) else elim (layer_name fuel s.groups name parent_id) [
      | none ↦ none
      | some path ↦
          let g : Group = record {
            id = s.last_group_id + 1;
            name = name;
            parent_id = parent_id;
            user_id = user_id;
            full_path = path;
          } in
          if insert_fails
          then some (false, record g { id = 0 }, s)
          else some (
            true,
            g,
            record s { groups = s.groups ++ g ∷ []; last_group_id = s.last_group_id + 1 },
          )
    ]

-- `Update` leaves a column whose new value is empty as it is.
abbrev or_else : Text → Text → Text
or_else [] old = old
or_else (c ∷ cs) old = c ∷ cs

-- `Rename`: whether it succeeded, and the tables.
unfoldable pub rename : ℕ → Bool → ℕ → Text → Text → Boxes → Option (Bool × Boxes)
unfolding group_by_name
rename fuel update_fails user_id old_name new_name s =
    let old = group_by_name s.groups user_id old_name in
    if old.id == 0
    then some (false, s)
    else elim (layer_name fuel s.groups new_name old.parent_id) [
      | none ↦ none
      | some path ↦
          if update_fails
          then some (false, s)
          else some (
            true,
            record s {
              groups =
                  update_where (λ g. g.id == old.id)
                    (λ g. record g {
                      name = or_else new_name g.name;
                      full_path = or_else path g.full_path;
                    })
                    s.groups;
            },
          )
    ]

abbrev pub elem : ℕ → List ℕ → Bool
elem x xs = any (λ y. x == y) xs

-- `DelGroup` with the ids of the tree. Its session begins no transaction, so the first statement
-- stays where the second fails.
unfoldable pub del_ids : Bool → Bool → ℕ → List ℕ → Boxes → Option Bool × Boxes
del_ids delete_fails update_fails user_id ids s =
    let kept = delete_where (λ g. elem g.id ids && g.user_id == user_id) s.groups in
    let s' = record s { groups = kept } in
    if delete_fails then (none, s) else if update_fails then (none, s') else (
      some (ltb (length kept) (length s.groups)),
      record s' {
        user_emails =
            update_where (λ r. elem r.group_id ids) (λ r. record r { group_id = 0 }) s.user_emails;
      },
    )

-- `DelGroup`: whether it deleted a group, or the SQL error, and the tables.
unfoldable pub del_group : ℕ → Bool → Bool → ℕ → ℕ → Boxes → Option (Option Bool × Boxes)
unfolding del_ids
del_group fuel delete_fails update_fails user_id group_id s =
    elim (all_child_ids fuel s.groups user_id group_id) [
      | none ↦ none
      | some ids ↦ some (del_ids delete_fails update_fails user_id (ids ++ group_id ∷ []) s)
    ]

-- `MoveMailToGroup`
unfoldable pub move_mail_to_group : Bool → ℕ → List ℕ → ℕ → Boxes → Bool × Boxes
move_mail_to_group update_fails user_id mail_ids group_id s =
    let moved : UserEmail → Bool = λ r. elem r.email_id mail_ids && r.user_id == user_id in
    if update_fails then (false, s) else (
      any moved s.user_emails,
      record s {
        user_emails = update_where moved (λ r. record r { group_id = group_id }) s.user_emails;
      },
    )
