-- ===== src/Groups/Under.antt =====
-- services/group/group.go: which groups `getAllChildId` collects.
use pmail.Base.{
  ℕ, zero, suc, ◌≤◌, ◌<◌, ◌≡◌, refl, ap, ◌∙◌, ◌↔◌, ◌⊎◌, inl, inr, Option, none, some, List, [], ◌∷◌,
  ◌++◌, arith, Option-cases, All, All-append, All-map, In, All-of_In, In-All, In-select,
  In-append_left, In-append_right,
}
use mathlib.Core.Path.{subst}
use pmail.Groups.{child_rows, collect, all_child_ids}
use pmail.Tables.{Group}

-- The ids below a group, in the rows of one user.
pub data Under (gs : List Group) (user_id : ℕ) : ℕ → ℕ → Type 0 where
  child : (root : ℕ) (g : Group) → In g (child_rows gs user_id root) → Under gs user_id root g.id
  deeper :
      (root i : ℕ) (g : Group)
      → In g (child_rows gs user_id root)
      → Under gs user_id g.id i
      → Under gs user_id root i

-- Every id of a list that there is, and an id of a list if there is one.
abbrev Within : (ℕ → Type 0) → Option (List ℕ) → Type 0
Within P none = Unit
Within P (some ids) = All P ids

abbrev Has : ℕ → Option (List ℕ) → Type 0
Has i none = Unit
Has i (some ids) = In i ids

collect-Within :
    (P : ℕ → Type 0) (f : ℕ → Option (List ℕ)) (gs : List Group)
    → All (λ g. P g.id × Within P (f g.id)) gs
    → Within P (collect f gs)
unfolding collect
collect-Within P f [] h = tt
collect-Within P f (g ∷ gs) ((p, h), hs) = elim (Option-cases (f g.id)) [
  | inl k ↦ rw (Within, collect, k) tt
  | inr (below, k) ↦ elim (Option-cases (collect f gs)) [
    | inl l ↦ rw (Within, collect, k, l) tt
    | inr (rest, l) ↦
        rw (Within, collect, k, l)
          (All-append P below (g.id ∷ rest) (subst (Within P) k h)
            (p, subst (Within P) l (collect-Within P f gs hs)))
  ]
]

collect-Has_of :
    (f : ℕ → Option (List ℕ)) (x : Group) (xs : List Group) (i : ℕ)
    → ((below rest : List ℕ)
        → f x.id ≡ some below
        → collect f xs ≡ some rest
        → In i (below ++ x.id ∷ rest))
    → Has i (collect f (x ∷ xs))
unfolding collect
collect-Has_of f x xs i h = elim (Option-cases (f x.id)) [
  | inl k ↦ rw (Has, collect, k) tt
  | inr (below, k) ↦ elim (Option-cases (collect f xs)) [
    | inl l ↦ rw (Has, collect, k, l) tt
    | inr (rest, l) ↦ rw (Has, collect, k, l) (h below rest k l)
  ]
]

collect-Has :
    (f : ℕ → Option (List ℕ)) (g : Group) (gs : List Group) (i : ℕ)
    → In g gs
    → (i ≡ g.id) ⊎ Has i (f g.id)
    → Has i (collect f gs)
collect-Has f g [] i m h = absurd m
collect-Has f g (x ∷ xs) i (inl d) (inl e) =
    collect-Has_of f x xs i
      (λ below rest k l. In-append_right i below (x.id ∷ rest) (inl (e ∙ ap (λ y. y.id) d)))
collect-Has f g (x ∷ xs) i (inl d) (inr h) = collect-Has_of f x xs i (λ below rest k l.
    In-append_left i below (x.id ∷ rest) (subst (Has i) (ap (λ y. f y.id) d ∙ k) h))
collect-Has f g (x ∷ xs) i (inr m) h = collect-Has_of f x xs i (λ below rest k l.
    In-append_right i below (x.id ∷ rest) (inr (subst (Has i) l (collect-Has f g xs i m h))))

Within-map :
    (P Q : ℕ → Type 0) (o : Option (List ℕ)) → ((i : ℕ) → P i → Q i) → Within P o → Within Q o
Within-map P Q none f h = tt
Within-map P Q (some ids) f h = All-map P Q ids f h

all_child_ids-Within :
    (n : ℕ) (gs : List Group) (user_id root : ℕ)
    → Within (Under gs user_id root) (all_child_ids n gs user_id root)
unfolding all_child_ids
all_child_ids-Within zero gs user_id root = tt
all_child_ids-Within (suc n) gs user_id root =
    collect-Within (Under gs user_id root) (all_child_ids n gs user_id) (child_rows gs user_id root)
      (All-of_In _ (child_rows gs user_id root) (λ g m. (
        child root g m,
        Within-map (Under gs user_id g.id) (Under gs user_id root) _ (λ i u. deeper root i g m u)
            (all_child_ids-Within n gs user_id g.id),
      )))

all_child_ids-Has :
    (n : ℕ) (gs : List Group) (user_id root i : ℕ)
    → Under gs user_id root i
    → Has i (all_child_ids n gs user_id root)
unfolding all_child_ids
all_child_ids-Has zero gs user_id root i u = tt
all_child_ids-Has (suc n) gs user_id _ _ (child root g m) =
    collect-Has (all_child_ids n gs user_id) g (child_rows gs user_id root) g.id m (inl refl)
all_child_ids-Has (suc n) gs user_id _ _ (deeper root i g m u) =
    collect-Has (all_child_ids n gs user_id) g (child_rows gs user_id root) i m
      (inr (all_child_ids-Has n gs user_id g.id i u))

-- Where the ids below a group are collected, they are the ids of the user's groups that have it above
-- them.
pub all_child_ids-Under :
    (n : ℕ) (gs : List Group) (user_id root : ℕ) (ids : List ℕ)
    → all_child_ids n gs user_id root ≡ some ids
    → (i : ℕ) → In i ids ↔ Under gs user_id root i
all_child_ids-Under n gs user_id root ids e i = (
  (λ m.
      In-All (Under gs user_id root) i ids m
        (subst (Within (Under gs user_id root)) e (all_child_ids-Within n gs user_id root))),
  (λ u. subst (Has i) e (all_child_ids-Has n gs user_id root i u)),
)

-- A row below what is below.
Under-child :
    (gs : List Group) (user_id root i : ℕ) (g : Group)
    → Under gs user_id root i
    → In g (child_rows gs user_id i)
    → Under gs user_id root g.id
Under-child gs user_id _ _ g (child root h m) k = deeper root g.id h m (child h.id g k)
Under-child gs user_id _ _ g (deeper root i h m u) k =
    deeper root g.id h m (Under-child gs user_id h.id i g u k)

-- Every group of the user is at the top or stands below another of the user's groups.
abbrev pub Rooted : ℕ → List Group → Type 0
Rooted user_id gs =
    (g : Group)
    → In g gs
    → g.user_id ≡ user_id
    → (g.parent_id ≡ 0) ⊎ ((p : Group) × In p gs × (p.user_id ≡ user_id) × (p.id ≡ g.parent_id))

pub Rooted-Under :
    (n user_id : ℕ) (gs : List Group) (g : Group)
    → All (λ x. x.parent_id < x.id) gs
    → Rooted user_id gs
    → In g gs
    → g.user_id ≡ user_id
    → g.id ≤ n
    → Under gs user_id 0 g.id
Rooted-Under zero user_id gs g h rooted m own le = absurd (omega (arith, In-All _ g gs m h, le))
Rooted-Under (suc n) user_id gs g h rooted m own le = elim (rooted g m own) [
  | inl e ↦ child 0 g (In-select _ g gs m (ground (arith, e, own)))
  | inr (p, mp, own', e) ↦
      Under-child gs user_id 0 p.id g
        (Rooted-Under n user_id gs p h rooted mp own' (omega (arith, In-All _ g gs m h, le, e)))
        (In-select _ g gs m (ground (arith, e, own)))
]
