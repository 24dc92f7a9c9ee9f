-- ===== src/Base/Lists.antt =====
-- Lists measured by native numbers, and the Boolean tests that Go's range loops make.
use Prim.Native.Nat.{ℕ, suc, ◌+◌}
use mathlib.Core.Path.{◌≡◌, refl, ap, sym, ◌∙◌, subst}
use mathlib.Core.Bool.{Bool, true, false, ◌&&◌, ◌||◌}
use mathlib.Core.List.{List, [], ◌∷◌, ◌++◌}
use native.Mathlib.Omega.{arith}
use mathlib.Core.Logic.{◌⊎◌, inl, inr}
use pmail.Base.Tests.{if◌then◌else◌}

module _ {ℓ} {A : Type ℓ} where
  abbrev pub length : List A → ℕ
  length [] = 0
  length (x ∷ xs) = suc (length xs)

  abbrev pub is_empty : List A → Bool
  is_empty [] = true
  is_empty (x ∷ xs) = false

  pub length-append : (xs ys : List A) → length (xs ++ ys) ≡ length xs + length ys
  length-append [] ys = omega arith
  length-append (x ∷ xs) ys = omega (arith, length-append xs ys)

  -- Some element passes the test.
  abbrev pub any : (A → Bool) → List A → Bool
  any p [] = false
  any p (x ∷ xs) = p x || any p xs

  -- Every element passes the test.
  abbrev pub all : (A → Bool) → List A → Bool
  all p [] = true
  all p (x ∷ xs) = p x && all p xs

  -- The elements that pass the test, in order.
  abbrev pub select : (A → Bool) → List A → List A
  select p [] = []
  select p (x ∷ xs) = if p x then x ∷ select p xs else select p xs

  -- The elements that satisfy a predicate.
  abbrev pub All {κ} : (A → Type κ) → List A → Type κ
  All P [] = Unit
  All P (x ∷ xs) = P x × All P xs

module _ {ℓ} {A : Type ℓ} where
  pub any-append : (p : A → Bool) (xs ys : List A) → any p (xs ++ ys) ≡ (any p xs || any p ys)
  any-append p [] ys = refl
  any-append p (x ∷ xs) ys = ground (arith, any-append p xs ys)

  pub select-append :
      (p : A → Bool) (xs ys : List A) → select p (xs ++ ys) ≡ select p xs ++ select p ys
  select-append p [] ys = refl
  select-append p (x ∷ xs) ys = ground (arith, select-append p xs ys)

  -- A second pass filters what the first left.
  pub select-select :
      (p q : A → Bool) (xs : List A) → select p (select q xs) ≡ select (λ x. q x && p x) xs
  select-select p q [] = refl
  select-select p q (x ∷ xs) = ground (arith, select-select p q xs)

  -- Two tests that agree on the elements select the same ones.
  pub select_congr :
      (p q : A → Bool) (xs : List A) → All (λ x. p x ≡ q x) xs → select p xs ≡ select q xs
  select_congr p q [] h = refl
  select_congr p q (x ∷ xs) h = ground (arith, select_congr p q xs h.1)

  pub select-true : (xs : List A) → select (λ _. true) xs ≡ xs
  select-true [] = refl
  select-true (x ∷ xs) = ap (◌∷◌ x) (select-true xs)

  pub All-append {κ} : (P : A → Type κ) (xs ys : List A) → All P xs → All P ys → All P (xs ++ ys)
  All-append P [] ys h k = k
  All-append P (x ∷ xs) ys h k = (h.0, All-append P xs ys h.1 k)

  pub All-map {κ κ'} :
      (P : A → Type κ) (Q : A → Type κ') (xs : List A) → ((x : A) → P x → Q x) → All P xs → All Q xs
  All-map P Q [] f h = tt
  All-map P Q (x ∷ xs) f h = (f x h.0, All-map P Q xs f h.1)

  pub All-of_forall {κ} : (P : A → Type κ) (xs : List A) → ((x : A) → P x) → All P xs
  All-of_forall P [] f = tt
  All-of_forall P (x ∷ xs) f = (f x, All-of_forall P xs f)

  pub All-select {κ} :
      (P : A → Type κ) (p : A → Bool) (xs : List A) → All P xs → All P (select p xs)
  All-select P p [] h = tt
  All-select P p (x ∷ xs) h = go (p x) (All-select P p xs h.1)
    where
      go : (b : Bool) → All P (select p xs) → All P (if b then x ∷ select p xs else select p xs)
      go true r = (h.0, r)
      go false r = r

  pub All-zip {κ κ'} :
      (P : A → Type κ) (Q : A → Type κ') (xs : List A)
      → All P xs
      → All Q xs
      → All (λ x. P x × Q x) xs
  All-zip P Q [] h k = tt
  All-zip P Q (x ∷ xs) h k = ((h.0, k.0), All-zip P Q xs h.1 k.1)

  -- Keeping everything or selecting is one selection.
  pub if-select :
      (b : Bool) (p : A → Bool) (xs : List A)
      → (if b then xs else select p xs) ≡ select (λ x. b || p x) xs
  if-select true p xs = sym (select-true xs)
  if-select false p xs = refl

module _ {ℓ} {A : Type ℓ} where
  -- What a selection keeps passes the test.
  pub select-All : (p : A → Bool) (xs : List A) → All (λ x. p x ≡ true) (select p xs)
  select-All p [] = tt
  select-All p (x ∷ xs) = go (p x) refl (select-All p xs)
    where
      go :
          (b : Bool)
          → p x ≡ b
          → All (λ y. p y ≡ true) (select p xs)
          → All (λ y. p y ≡ true) (if b then x ∷ select p xs else select p xs)
      go true e r = (e, r)
      go false e r = r

module _ {A : Type 0} where
  -- Where an element stands in a list.
  abbrev pub In : A → List A → Type 0
  In x [] = ⊥
  In x (y ∷ ys) = (x ≡ y) ⊎ In x ys

  pub All-of_In {κ} : (P : A → Type κ) (xs : List A) → ((x : A) → In x xs → P x) → All P xs
  All-of_In P [] f = tt
  All-of_In P (x ∷ xs) f = (f x (inl refl), All-of_In P xs (λ y m. f y (inr m)))

  pub In-All {κ} : (P : A → Type κ) (x : A) (xs : List A) → In x xs → All P xs → P x
  In-All P x [] m h = absurd m
  In-All P x (y ∷ ys) (inl e) h = subst P (sym e) h.0
  In-All P x (y ∷ ys) (inr m) h = In-All P x ys m h.1

  pub In-select : (p : A → Bool) (x : A) (xs : List A) → In x xs → p x ≡ true → In x (select p xs)
  In-select p x [] m h = m
  In-select p x (y ∷ ys) (inl e) h = first (p y) (ap p (sym e) ∙ h)
    where
      first : (b : Bool) → b ≡ true → In x (if b then y ∷ select p ys else select p ys)
      first true k = inl e
      first false k = absurd (cc k)
  In-select p x (y ∷ ys) (inr m) h = later (p y) (In-select p x ys m h)
    where
      later : (b : Bool) → In x (select p ys) → In x (if b then y ∷ select p ys else select p ys)
      later true k = inr k
      later false k = k

  pub In-selected : (p : A → Bool) (x : A) (xs : List A) → In x (select p xs) → In x xs
  In-selected p x [] m = m
  In-selected p x (y ∷ ys) m = go (p y) m (In-selected p x ys)
    where
      go :
          (b : Bool)
          → In x (if b then y ∷ select p ys else select p ys)
          → (In x (select p ys) → In x ys)
          → In x (y ∷ ys)
      go true (inl e) f = inl e
      go true (inr k) f = inr (f k)
      go false k f = inr (f k)
