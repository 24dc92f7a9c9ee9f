-- ===== src/Arrays.antt =====
-- utils/array/array.go: the list helpers. `eq` is Go's `==` on the element type, and a map from
-- elements to true is the list of its keys.
use pmail.Base.{
  ◌≡◌, refl, sym, ap, ◌∙◌, ◌≢◌, ◌↔◌, Bool, true, false, not, ◌&&◌, ◌||◌, List, [], ◌∷◌, ◌++◌, arith,
  if◌then◌else◌, any, select, All, select_congr, All-map,
}

module _ {A : Type 0} (eq : A → A → Bool) where
  -- `InArray`, and the lookup in such a map
  unfoldable pub in_array : A → List A → Bool
  in_array needle haystack = any (λ t. eq needle t) haystack

  -- `Merge`
  unfoldable pub merge : List A → List A → List A
  merge slice1 slice2 = slice1 ++ slice2

  -- `Intersect`: it runs over the second slice.
  unfoldable pub intersect : List A → List A → List A
  intersect slice1 slice2 = select (λ v. in_array v slice1) slice2

  -- `Difference`: it runs over the first slice, and looks into the intersection.
  unfoldable pub difference : List A → List A → List A
  difference slice1 slice2 =
      let inter = intersect slice1 slice2 in select (λ v. not (in_array v inter)) slice1

  abbrev pub Equality : Type 0
  Equality = (a b : A) → (eq a b ≡ true) ↔ (a ≡ b)

  in_array-select :
      (p : A → Bool) (x : A) (xs : List A)
      → Equality
      → p x ≡ true
      → in_array x (select p xs) ≡ in_array x xs
  unfolding in_array
  in_array-select p x [] law h = refl
  in_array-select p x (y ∷ ys) law h = go (eq x y) refl (p y) refl (in_array-select p x ys law h)
    where
      go :
          (b : Bool)
          → eq x y ≡ b
          → (c : Bool) → p y ≡ c
          → any (λ t. eq x t) (select p ys) ≡ any (λ t. eq x t) ys
          → any (λ t. eq x t) (if c then y ∷ select p ys else select p ys)
            ≡ (b || any (λ t. eq x t) ys)
      go b e true k i = rw (e, i) refl
      go false e false k i = i
      go true e false k i = absurd (clash (sym h ∙ ap p ((law x y).0 e) ∙ k))
        where
          clash : true ≢ false
          clash z = cc

  in_array-dropped :
      (p : A → Bool) (x : A) (xs : List A)
      → Equality
      → p x ≡ false
      → in_array x (select p xs) ≡ false
  unfolding in_array
  in_array-dropped p x [] law h = refl
  in_array-dropped p x (y ∷ ys) law h = go (eq x y) refl (p y) refl (in_array-dropped p x ys law h)
    where
      go :
          (b : Bool)
          → eq x y ≡ b
          → (c : Bool) → p y ≡ c
          → any (λ t. eq x t) (select p ys) ≡ false
          → any (λ t. eq x t) (if c then y ∷ select p ys else select p ys) ≡ false
      go b e false k i = i
      go false e true k i = rw (e, i) refl
      go true e true k i = absurd (clash (sym k ∙ ap p (sym ((law x y).0 e)) ∙ h))
        where
          clash : true ≢ false
          clash z = cc

  in_array_self : (xs : List A) → Equality → All (λ x. in_array x xs ≡ true) xs
  unfolding in_array
  in_array_self [] law = tt
  in_array_self (x ∷ xs) law = (
    rw ((law x x).1 refl) refl,
    All-map _ _ xs (λ y h. or_right (eq y x) h) (in_array_self xs law),
  )
    where
      or_right : (a : Bool) {b : Bool} → b ≡ true → (a || b) ≡ true
      or_right a h = ground (arith, h)

  -- The difference keeps exactly the elements of the first slice that the second does not hold, with
  -- their order and number, if `eq` is equality.
  difference-select :
      (slice1 slice2 : List A)
      → Equality
      → difference slice1 slice2 ≡ select (λ v. not (in_array v slice2)) slice1
  unfolding difference intersect
  difference-select slice1 slice2 law = select_congr _ _ slice1 (
      All-map _ _ slice1 (λ x h. ap not (in_array-select (λ v. in_array v slice1) x slice2 law h))
        (in_array_self slice1 law))

  -- An element is in the intersection exactly if both slices hold it, if `eq` is equality.
  in_array-intersect :
      (x : A) (slice1 slice2 : List A)
      → Equality
      → in_array x (intersect slice1 slice2) ≡ (in_array x slice1 && in_array x slice2)
  unfolding intersect
  in_array-intersect x slice1 slice2 law = go (in_array x slice1) refl
    where
      go :
          (b : Bool)
          → in_array x slice1 ≡ b
          → in_array x (select (λ v. in_array v slice1) slice2) ≡ (b && in_array x slice2)
      go true e = in_array-select (λ v. in_array v slice1) x slice2 law e
      go false e = in_array-dropped (λ v. in_array v slice1) x slice2 law e
