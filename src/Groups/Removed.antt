-- ===== src/Groups/Removed.antt =====
-- services/group/group.go: what `DelGroup` removes.
use pmail.Base.{
  ℕ, ◌≡◌, refl, sym, ap, ◌≢◌, ◌↔◌, ◌⊎◌, inl, inr, Bool, true, false, not, ◌&&◌, Option, none, some,
  List, [], ◌∷◌, ◌++◌, arith, ◌==◌, if◌then◌else◌, ==_iff, Bool-cases, Option-cases, and_true, All,
  select-All, In, In-All, In-select, In-selected, In-append_left, In-append_right, In-append,
}
use mathlib.Core.Path.{subst}
use pmail.Groups.{Boxes, elem, all_child_ids, del_ids, del_group}
use pmail.Groups.Under.{Under, all_child_ids-Under}
use pmail.Tables.{Group, UserEmail, update_where, delete_where}

-- The groups that a deletion is about: the given one and those below it.
abbrev pub Covered : List Group → ℕ → ℕ → ℕ → Type 0
Covered gs user_id root i = (i ≡ root) ⊎ Under gs user_id root i

elem-In : (i : ℕ) (ids : List ℕ) → elem i ids ≡ true → In i ids
elem-In i [] h = absurd cc
elem-In i (x ∷ xs) h = elim (Bool-cases (i == x)) [
  | inl e ↦ inl ((==_iff i x).0 e)
  | inr e ↦ inr (elem-In i xs (ground (arith, h, e)))
]

In-elem : (i : ℕ) (ids : List ℕ) → In i ids → elem i ids ≡ true
In-elem i [] m = absurd m
In-elem i (x ∷ xs) (inl e) = ground (arith, e)
In-elem i (x ∷ xs) (inr m) = ground (arith, In-elem i xs m)

-- What stays of the groups: those whose ids are not given, and those of other users.
kept_iff :
    (ids : List ℕ) (user_id : ℕ) (g : Group) (gs : List Group)
    → In g (delete_where (λ x. elem x.id ids && x.user_id == user_id) gs)
      ↔ (In g gs × ¬ ((g.user_id ≡ user_id) × In g.id ids))
kept_iff ids user_id g gs = (
  (λ m. (
    In-selected _ g gs m,
    λ h.
        clash (elem g.id ids) (g.user_id == user_id) (In-elem g.id ids h.1)
          ((==_iff g.user_id user_id).1 h.0)
          (In-All _ g (delete_where (λ x. elem x.id ids && x.user_id == user_id) gs) m
            (select-All _ gs)),
  )),
  (λ h. In-select _ g gs h.0 (elim (Bool-cases (elem g.id ids && g.user_id == user_id)) [
    | inl e ↦
        let (a, b) = and_true (elem g.id ids) (g.user_id == user_id) e in
        absurd (h.1 ((==_iff g.user_id user_id).0 b, elem-In g.id ids a))
    | inr e ↦ ap not e
  ])),
)
  where
    clash : (a b : Bool) → a ≡ true → b ≡ true → not (a && b) ≡ true → ⊥
    clash a b h k l = ground (arith, h, k, l)

-- No row stays in a mailbox whose id is given.
emptied :
    (ids : List ℕ) (i : ℕ) (rows : List UserEmail)
    → i ≢ 0
    → In i ids
    → All
        (λ r. r.group_id ≢ i)
        (update_where (λ r. elem r.group_id ids) (λ r. record r { group_id = 0 }) rows)
emptied ids i [] h m = tt
emptied ids i (r ∷ rows) h m = (here (elem r.group_id ids) refl, emptied ids i rows h m)
  where
    here :
        (b : Bool)
        → elem r.group_id ids ≡ b
        → (if b then record r { group_id = 0 } else r).group_id ≢ i
    here true e k = h (sym k)
    here false e k = absurd (cc (e, k, In-elem i ids m))

-- What a deletion of ids leaves.
Left : List ℕ → ℕ → Boxes → Boxes → Type 0
Left ids user_id s s' =
    ((g : Group) → In g s'.groups ↔ (In g s.groups × ¬ ((g.user_id ≡ user_id) × In g.id ids)))
    × ((i : ℕ) → i ≢ 0 → In i ids → All (λ r. r.group_id ≢ i) s'.user_emails)

del_ids-Left :
    (ids : List ℕ) (user_id : ℕ) (s : Boxes)
    → Left ids user_id s (del_ids false false user_id ids s).1
unfolding del_ids Left
del_ids-Left ids user_id s =
    ((λ g. kept_iff ids user_id g s.groups), (λ i h m. emptied ids i s.user_emails h m))

abbrev Reported : (Boxes → Type 0) → Option (Option Bool × Boxes) → Type 0
Reported P none = Unit
Reported P (some r) = P r.1

Covered-In :
    (ids : List ℕ) (gs : List Group) (n user_id root i : ℕ)
    → all_child_ids n gs user_id root ≡ some ids
    → In i (ids ++ root ∷ []) ↔ Covered gs user_id root i
Covered-In ids gs n user_id root i e = (
  (λ m. elim (In-append i ids (root ∷ []) m) [
    | inl k ↦ inr ((all_child_ids-Under n gs user_id root ids e i).0 k)
    | inr (inl k) ↦ inl k
    | inr (inr k) ↦ absurd k
  ]),
  (λ c. elim c [
    | inl k ↦ In-append_right i ids (root ∷ []) (inl k)
    | inr u ↦ In-append_left i ids (root ∷ []) ((all_child_ids-Under n gs user_id root ids e i).1 u)
  ]),
)

-- The user's covered groups are gone and no other; no row is in a covered mailbox but the default ones.
abbrev Removes : ℕ → ℕ → Boxes → Boxes → Type 0
Removes user_id root s s' =
    ((g : Group)
      → In g s'.groups
        ↔ (In g s.groups × ¬ ((g.user_id ≡ user_id) × Covered s.groups user_id root g.id)))
    × ((i : ℕ) → i ≢ 0 → Covered s.groups user_id root i → All (λ r. r.group_id ≢ i) s'.user_emails)

Left-Removes :
    (ids : List ℕ) (n user_id root : ℕ) (s s' : Boxes)
    → all_child_ids n s.groups user_id root ≡ some ids
    → Left (ids ++ root ∷ []) user_id s s'
    → Removes user_id root s s'
unfolding Left
Left-Removes ids n user_id root s s' e h = (
  (λ g.
      let c = Covered-In ids s.groups n user_id root g.id e in
      (
        (λ m. let k = (h.0 g).0 m in (k.0, λ d. k.1 (d.0, c.1 d.1))),
        (λ k. (h.0 g).1 (k.0, λ d. k.1 (d.0, c.0 d.1))),
      )),
  (λ i z k. h.1 i z ((Covered-In ids s.groups n user_id root i e).1 k)),
)

del_group-Reported :
    (n user_id root : ℕ) (s : Boxes)
    → Reported (Removes user_id root s) (del_group n false false user_id root s)
unfolding del_group
del_group-Reported n user_id root s = elim (Option-cases (all_child_ids n s.groups user_id root)) [
  | inl k ↦ rw (Reported, del_group, k) tt
  | inr (ids, k) ↦
      rw (Reported, del_group, k)
        (Left-Removes ids n user_id root s _ k (del_ids-Left (ids ++ root ∷ []) user_id s))
]

pub del_group-Removes :
    (n user_id root : ℕ) (s s' : Boxes) (deleted : Option Bool)
    → del_group n false false user_id root s ≡ some (deleted, s')
    → Removes user_id root s s'
del_group-Removes n user_id root s s' deleted e =
    subst (Reported (Removes user_id root s)) e (del_group-Reported n user_id root s)

-- A deletion that ends without an SQL error removes of the groups exactly those of the user that are
-- the given one or below it. And no row of any user, not of this one alone, stays in the mailbox of a
-- nonzero id that is the given one or below it.
pub del_group-removes :
    (n user_id root : ℕ) (s s' : Boxes) (deleted : Option Bool) (g : Group) (i : ℕ)
    → del_group n false false user_id root s ≡ some (deleted, s')
    → i ≢ 0
    → Covered s.groups user_id root i
    → (In g s'.groups
        ↔ (In g s.groups × ¬ ((g.user_id ≡ user_id) × Covered s.groups user_id root g.id)))
      × All (λ r. r.group_id ≢ i) s'.user_emails
del_group-removes n user_id root s s' deleted g i e z c =
    let h = del_group-Removes n user_id root s s' deleted e in (h.0 g, h.1 i z c)
