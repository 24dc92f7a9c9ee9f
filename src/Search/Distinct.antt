-- ===== src/Search/Distinct.antt =====
-- Selections of a list with distinct ids, and the sets of ids that the search keeps.
use pmail.Base.{
  ℕ, ◌≡◌, refl, ap, ◌∙◌, Bool, false, not, ◌&&◌, ◌||◌, List, [], ◌∷◌, ◌++◌, arith, ◌==◌, select,
  All, any-append, select-select, select_congr, All-map, All-zip,
}
use pmail.Search.{Item}
use pmail.Search.Filters.{has_id}
use pmail.Search.Run.{without_ids, with_ids}

-- Ids are a primary key: no item of the list has this one, and no two items have the same.
abbrev pub Fresh : ℕ → List Item → Type 0
Fresh id = All (λ y. (y.id == id) ≡ false)

abbrev pub DistinctIds : List Item → Type 0
DistinctIds [] = Unit
DistinctIds (x ∷ xs) = Fresh x.id xs × DistinctIds xs

has_id-Fresh :
    (id : ℕ) (p : Item → Bool) (xs : List Item) → Fresh id xs → has_id (select p xs) id ≡ false
unfolding has_id
has_id-Fresh id p [] h = refl
has_id-Fresh id p (x ∷ xs) h = ground (arith, has_id-Fresh id p xs h.1)

has_id-cons_ne :
    (p : Item → Bool) (x y : Item) (xs : List Item)
    → (y.id == x.id) ≡ false
    → has_id (select p (x ∷ xs)) y.id ≡ has_id (select p xs) y.id
unfolding has_id
has_id-cons_ne p x y xs h = ground arith

-- In a list with distinct ids, an item's id is among those of the selected items exactly if the
-- item itself is selected.
has_id-select :
    (p : Item → Bool) (xs : List Item)
    → DistinctIds xs
    → All (λ x. has_id (select p xs) x.id ≡ p x) xs
has_id-select p [] h = tt
has_id-select p (x ∷ xs) h = (
  unfold has_id in ground (arith, has_id-Fresh x.id p xs h.0),
  All-map _ _ xs (λ y k. has_id-cons_ne p x y xs k.0 ∙ k.1)
      (All-zip _ _ xs h.0 (has_id-select p xs h.1)),
)

module _ (base : List Item) where
  pub congr :
      (p q : Item → Bool) {l : List Item}
      → All (λ x. p x ≡ q x) base
      → l ≡ select p base
      → l ≡ select q base
  congr p q h e = e ∙ select_congr p q base h

  -- A further selection.
  pub then_select :
      (q r : Item → Bool) {l : List Item}
      → l ≡ select q base
      → select r l ≡ select (λ x. q x && r x) base
  then_select q r e = ap (select r) e ∙ select-select r q base

  module _ (distinct : DistinctIds base) where
    pub has_id-Selects :
        (p : Item → Bool) {l : List Item} → l ≡ select p base → All (λ x. has_id l x.id ≡ p x) base
    has_id-Selects p e =
        All-map _ _ base (λ x h. ap (λ l. has_id l x.id) e ∙ h) (has_id-select p base distinct)

    pub without_ids-Selects :
        (p q : Item → Bool) {m l : List Item}
        → m ≡ select p base
        → l ≡ select q base
        → without_ids m l ≡ select (λ x. q x && not (p x)) base
    unfolding without_ids
    without_ids-Selects p q {m} e d =
        congr _ _ (All-map _ _ base (λ x h. ap (λ b. q x && not b) h) (has_id-Selects p e))
          (then_select q (λ x. not (has_id m x.id)) d)

    pub with_ids-Selects :
        (p q : Item → Bool) {m l : List Item}
        → m ≡ select p base
        → l ≡ select q base
        → with_ids m l ≡ select (λ x. q x && p x) base
    unfolding with_ids
    with_ids-Selects p q {m} e d =
        congr _ _ (All-map _ _ base (λ x h. ap (λ b. q x && b) h) (has_id-Selects p e))
          (then_select q (λ x. has_id m x.id) d)

pub has_id-nil : (id : ℕ) → has_id [] id ≡ false
unfolding has_id
has_id-nil id = refl

pub has_id-append :
    (xs ys : List Item) (id : ℕ) → has_id (xs ++ ys) id ≡ (has_id xs id || has_id ys id)
unfolding has_id
has_id-append xs ys id = any-append (λ x. x.id == id) xs ys
