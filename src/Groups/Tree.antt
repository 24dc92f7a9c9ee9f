-- ===== src/Groups/Tree.antt =====
-- services/group/group.go: the tree that `buildChildren` makes against the ids of `getAllChildId`.
use pmail.Base.{
  ℕ, zero, suc, ◌≡◌, refl, sym, ap, ◌∙◌, inl, inr, Option, none, some, List, [], ◌∷◌, ◌++◌,
  Option-cases, Text,
}
use mathlib.Core.Option as Option
use pmail.Groups.{
  Items, no_item, item, collect, build_rows, child_rows, all_child_ids, build_children,
}
use pmail.Tables.{Group}

-- The ids of a tree, children first.
post_order : Items → List ℕ
post_order no_item = []
post_order (item id label tag children rest) = post_order children ++ id ∷ post_order rest

build_rows-collect :
    (tag : ℕ → Text) (b : ℕ → Option Items) (f : ℕ → Option (List ℕ)) (gs : List Group)
    → ((i : ℕ) → Option.map post_order (b i) ≡ f i)
    → Option.map post_order (build_rows tag b gs) ≡ collect f gs
unfolding build_rows collect post_order
build_rows-collect tag b f [] h = refl
build_rows-collect tag b f (g ∷ gs) h = elim (Option-cases (b g.id)) [
  | inl k ↦
      let k' : f g.id ≡ none = sym (h g.id) ∙ ap (Option.map post_order) k in
      rw (build_rows, collect, k, k') refl
  | inr (children, k) ↦
      let k' : f g.id ≡ some (post_order children) = sym (h g.id) ∙ ap (Option.map post_order) k in
      elim (Option-cases (build_rows tag b gs)) [
        | inl e ↦
            let e' : collect f gs ≡ none =
              sym (build_rows-collect tag b f gs h) ∙ ap (Option.map post_order) e in
            rw (build_rows, collect, k, k', e, e') refl
        | inr (rest, e) ↦
            let e' : collect f gs ≡ some (post_order rest) =
              sym (build_rows-collect tag b f gs h) ∙ ap (Option.map post_order) e in
            rw (build_rows, collect, k, k', e, e') refl
      ]
]

-- The ids of the tree below a group, each after those below it, are the ids that the deletion of the
-- group collects, on the same fuel.
build_children-all_child_ids :
    (tag : ℕ → Text) (n : ℕ) (gs : List Group) (user_id root : ℕ)
    → Option.map post_order (build_children tag n gs user_id root) ≡ all_child_ids n gs user_id root
unfolding build_children all_child_ids
build_children-all_child_ids tag zero gs user_id root = refl
build_children-all_child_ids tag (suc n) gs user_id root =
    build_rows-collect tag (build_children tag n gs user_id) (all_child_ids n gs user_id)
      (child_rows gs user_id root) (λ i. build_children-all_child_ids tag n gs user_id i)
