-- ===== src/Groups/Naming.antt =====
-- services/group/group.go: `getLayerName` and `getAllChildId` end.
use pmail.Base.{
  ℕ, zero, suc, ◌+◌, ◌≤◌, ◌<◌, ◌≡◌, refl, ap, Bool, true, false, ◌&&◌, Option, some, List, [], ◌∷◌,
  ◌++◌, arith, ◌==◌, if◌then◌else◌, and_true, select, All, All-map, All-select, All-zip, select-All,
  Text, codes,
}
use pmail.Groups.{
  Boxes, no_group, or_no_group, group_by_id, layer_name, join_path, child_rows, collect,
  all_child_ids,
}
use pmail.Tables.{Group, first}

-- Every id has been given out, and every group was made after its parent.
pub record IsForest (s : Boxes) : Type 0 where
  pub ids_given : All (λ g. (0 < g.id) × (g.id ≤ s.last_group_id)) s.groups
  pub parents_first : All (λ g. g.parent_id < g.id) s.groups

abbrev pub Gives {ℓ} : {A : Type ℓ} → Option A → Type ℓ
Gives {A = A} o = (a : A) × (o ≡ some a)

pub first-All :
    (P : Group → Type 0) (gs : List Group) → P no_group → All P gs → P (or_no_group (first gs))
first-All P [] z h = z
first-All P (g ∷ gs) z h = h.0

-- Above a group of a given id stands a smaller id, or nothing.
grandparent_below :
    (gs : List Group) (i n : ℕ)
    → All (λ g. g.parent_id < g.id) gs
    → i ≤ suc n
    → (group_by_id gs i).parent_id ≤ n
unfolding group_by_id
grandparent_below gs i n h le =
    first-All (λ g. g.parent_id ≤ n) (select (λ g. g.id == i) gs) (omega arith)
      (All-map _ _ (select (λ g. g.id == i) gs) (λ g k. ground (arith, k.0, k.1, le))
        (All-zip _ _ (select (λ g. g.id == i) gs) (All-select _ (λ g. g.id == i) gs h)
          (select-All (λ g. g.id == i) gs)))

join_path-Gives : (name : Text) (o : Option Text) → Gives o → Gives (join_path name o)
join_path-Gives name o (t, e) = (t ++ (codes "/" ++ name), ap (join_path name) e)

if-Gives {ℓ} :
    {A : Type ℓ} (b : Bool) (x : A) (o : Option A) → Gives o → Gives (if b then some x else o)
if-Gives true x o h = (x, refl)
if-Gives false x o h = h

pub layer_name-Gives :
    (n : ℕ) (gs : List Group) (name : Text) (i : ℕ)
    → All (λ g. g.parent_id < g.id) gs
    → i ≤ n
    → Gives (layer_name (suc n) gs name i)
unfolding layer_name
layer_name-Gives zero gs name i h le = let e : i ≡ 0 = omega (arith, le) in rw e (name, refl)
layer_name-Gives (suc n) gs name i h le = if-Gives (i == 0) name _ (
    join_path-Gives name _ (
      layer_name-Gives n gs (group_by_id gs i).name (group_by_id gs i).parent_id h
        (grandparent_below gs i n h le)))

collect-Gives :
    (f : ℕ → Option (List ℕ)) (gs : List Group)
    → All (λ g. Gives (f g.id)) gs
    → Gives (collect f gs)
unfolding collect
collect-Gives f [] h = ([], refl)
collect-Gives f (g ∷ gs) ((ids, e), h) =
    let (rest, k) = collect-Gives f gs h in (ids ++ g.id ∷ rest, rw (collect, e, k) refl)

-- The rows below a group have ids between it and the last id.
child_rows-above :
    (gs : List Group) (user_id root last : ℕ)
    → All (λ g. g.id ≤ last) gs
    → All (λ g. g.parent_id < g.id) gs
    → All (λ g. (root < g.id) × (g.id ≤ last)) (child_rows gs user_id root)
child_rows-above gs user_id root last h k =
    All-map _ _ (child_rows gs user_id root)
      (λ g e.
        (ground (arith, e.0.1, and_true (g.parent_id == root) (g.user_id == user_id) e.1), e.0.0))
      (All-zip _ _ (child_rows gs user_id root) (All-select _ _ gs (All-zip _ _ gs h k))
        (select-All (λ g. g.parent_id == root && g.user_id == user_id) gs))

pub all_child_ids-Gives :
    (n : ℕ) (gs : List Group) (user_id root last : ℕ)
    → All (λ g. g.id ≤ last) gs
    → All (λ g. g.parent_id < g.id) gs
    → last ≤ root + n
    → Gives (all_child_ids (suc n) gs user_id root)
unfolding all_child_ids
all_child_ids-Gives zero gs user_id root last h k le =
    collect-Gives (all_child_ids 0 gs user_id) (child_rows gs user_id root) (
      All-map _ _ (child_rows gs user_id root) (λ g e. absurd (omega (arith, e.0, e.1, le)))
        (child_rows-above gs user_id root last h k))
all_child_ids-Gives (suc n) gs user_id root last h k le =
    collect-Gives (all_child_ids (suc n) gs user_id) (child_rows gs user_id root) (
      All-map _ _ (child_rows gs user_id root)
        (λ g e. all_child_ids-Gives n gs user_id g.id last h k (omega (arith, e.0, le)))
        (child_rows-above gs user_id root last h k))
