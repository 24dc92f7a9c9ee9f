-- ===== src/Tests/Grouping.antt =====
-- Witnesses for services/group and the mailboxes of listen/imap_server.
use pmail.Base.{
  ◌≡◌, refl, sym, ap, ◌≢◌, ◌↔◌, inl, inr, true, false, none, some, [], ◌∷◌, arith, ltb, All, In,
  codes, text_eq,
}
use pmail.Groups.{
  Boxes, group_by_id, group_by_name, layer_name, collect, all_child_ids, create_group, del_ids,
  del_group,
}
use pmail.Groups.Cycle.{create_below_itself}
use pmail.Groups.Forest.{
  create_box, del_box, step, Reached, no_groups, after, Reached-IsForest, step-Gives,
}
use pmail.Groups.Naming.{IsForest, Gives}
use pmail.Groups.Removed.{Covered, del_group-removes}
use pmail.Groups.Under.{child, Rooted}
use pmail.Imap.Mailboxes.{delete, delete_missing-empties}
use pmail.Search.Load.{last_segment}
use pmail.Tables.{Group, UserEmail}
use pmail.Tests.Data.{stored_row}

abbrev group_a : Group
group_a = record { id = 1; name = codes "a"; parent_id = 0; user_id = 7; full_path = codes "a" }

abbrev group_b : Group
group_b = record { id = 2; name = codes "b"; parent_id = 1; user_id = 7; full_path = codes "a/b" }

abbrev row_in_b : UserEmail
row_in_b = record stored_row { group_id = 2 }

abbrev no_boxes : Boxes
no_boxes = record { groups = []; last_group_id = 0; user_emails = row_in_b ∷ [] }

abbrev box_a : Boxes
box_a = record { groups = group_a ∷ []; last_group_id = 1; user_emails = row_in_b ∷ [] }

abbrev boxes : Boxes
boxes = record { groups = group_a ∷ group_b ∷ []; last_group_id = 2; user_emails = row_in_b ∷ [] }

boxes-Reached : Reached boxes
unfolding step create_group layer_name group_by_id group_by_name text_eq
boxes-Reached =
    after box_a boxes (create_box false 7 (codes "b") 1)
      (after no_boxes box_a (create_box false 7 (codes "a") 0) (no_groups (row_in_b ∷ []))
        (omega arith) refl)
      (omega arith) refl

Reached-IsForest_example : IsForest boxes
Reached-IsForest_example = Reached-IsForest boxes boxes-Reached

step-Gives_example : Gives (step 3 (del_box false false 7 1) boxes)
step-Gives_example = step-Gives boxes (del_box false false 7 1) boxes-Reached tt

abbrev emptied_boxes : Boxes
emptied_boxes = record { groups = []; last_group_id = 2; user_emails = stored_row ∷ [] }

del_group-boxes : del_group 3 false false 7 1 boxes ≡ some (some true, emptied_boxes)
unfolding del_group del_ids all_child_ids collect
del_group-boxes = refl

del_group-removes_example :
    (In group_b []
      ↔ (In group_b boxes.groups × ¬ ((group_b.user_id ≡ 7) × Covered boxes.groups 7 1 group_b.id)))
    × All (λ r. r.group_id ≢ 2) emptied_boxes.user_emails
del_group-removes_example =
    del_group-removes 3 7 1 boxes emptied_boxes (some true) group_b 2 del_group-boxes
      (λ e. omega (arith, e)) (inr (child 1 group_b (inl refl)))

-- The mailbox below the next id.
abbrev looping_boxes : Boxes
looping_boxes = record {
  groups = group_a ∷ record group_b { parent_id = 2; full_path = codes "/b" } ∷ [];
  last_group_id = 2;
  user_emails = row_in_b ∷ [];
}

looping_boxes-made :
    create_group 3 false 7 (codes "b") 2 box_a
    ≡ some (true, record group_b { parent_id = 2; full_path = codes "/b" }, looping_boxes)
unfolding create_group layer_name group_by_id group_by_name text_eq
looping_boxes-made = refl

b_missing : ltb 0 (group_by_name box_a.groups 7 (codes "b")).id ≡ false
unfolding group_by_name text_eq
b_missing = refl

create_below_itself_example : del_group 9 false false 7 2 looping_boxes ≡ none
create_below_itself_example =
    create_below_itself 3 9 7 (codes "b") box_a looping_boxes
      (record group_b { parent_id = 2; full_path = codes "/b" }) false false b_missing
      looping_boxes-made

abbrev kept_group : Group
kept_group = record { id = 3; name = codes "c"; parent_id = 0; user_id = 8; full_path = codes "c" }

abbrev two_users : Boxes
two_users = record boxes { groups = group_a ∷ group_b ∷ kept_group ∷ []; last_group_id = 3 }

two_users-IsForest : IsForest two_users
two_users-IsForest = record {
  ids_given =
      ((omega arith, omega arith), ((omega arith, omega arith), ((omega arith, omega arith), tt)));
  parents_first = (omega arith, (omega arith, (omega arith, tt)));
}

two_users-Rooted : Rooted 7 two_users.groups
two_users-Rooted g (inl e) own = inl (ap (λ x. x.parent_id) e)
two_users-Rooted g (inr (inl e)) own = inr (group_a, inl refl, refl, sym (ap (λ x. x.parent_id) e))
two_users-Rooted g (inr (inr (inl e))) own = absurd (omega (arith, own, ap (λ x. x.user_id) e))
two_users-Rooted g (inr (inr (inr x))) own = absurd x

abbrev one_user : Boxes
one_user = record { groups = kept_group ∷ []; last_group_id = 3; user_emails = stored_row ∷ [] }

z_missing : (group_by_name two_users.groups 7 (last_segment (codes "z"))).id ≡ 0
unfolding group_by_name last_segment text_eq
z_missing = refl

z_deleted : delete false false 7 (codes "z") two_users ≡ some (some true, one_user)
unfolding delete group_by_name last_segment text_eq del_group del_ids all_child_ids collect
z_deleted = refl

delete_missing-empties_example : kept_group.user_id ≢ 7
delete_missing-empties_example =
    delete_missing-empties 7 (codes "z") two_users one_user (some true) kept_group
      two_users-IsForest two_users-Rooted z_missing z_deleted (inl refl)
