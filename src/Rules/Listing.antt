-- ===== src/Rules/Listing.antt =====
-- services/rule/rule.go: what `GetAllRules` lists.
use pmail.Base.{
  select-All, ℕ, ◌+◌, ◌≤◌, ◌≡◌, refl, ◌≢◌, inl, inr, true, false, List, [], ◌∷◌, map, arith, leb,
  ◌==◌, leb→le, Bool-cases, length, select, All, All-map, Text,
}
use pmail.Rules.{RuleRow, Value, decode, insert_row, order_rows, get_all_rules}

-- No rule stands behind one of a lower `sort`.
abbrev pub AtMost : ℕ → List RuleRow → Type 0
AtMost n = All (λ r. r.sort ≤ n)

abbrev pub Descending : List RuleRow → Type 0
Descending [] = Unit
Descending (r ∷ rs) = AtMost r.sort rs × Descending rs

insert_row-All :
    (P : RuleRow → Type 0) (r : RuleRow) (xs : List RuleRow)
    → P r
    → All P xs
    → All P (insert_row r xs)
insert_row-All P r [] p h = (p, tt)
insert_row-All P r (x ∷ xs) p h = elim (Bool-cases (leb x.sort r.sort)) [
  | inl e ↦ rw e (p, h)
  | inr e ↦ rw e (h.0, insert_row-All P r xs p h.1)
]

insert_row-Descending :
    (r : RuleRow) (xs : List RuleRow) → Descending xs → Descending (insert_row r xs)
insert_row-Descending r [] h = (tt, tt)
insert_row-Descending r (x ∷ xs) h = elim (Bool-cases (leb x.sort r.sort)) [
  | inl e ↦
      let le = leb→le x.sort r.sort e in
      rw e ((le, All-map _ _ xs (λ y k. omega (arith, k, le)) h.0), h)
  | inr e ↦ rw e (
    insert_row-All (λ y. y.sort ≤ x.sort) r xs (ground (arith, e)) h.0,
    insert_row-Descending r xs h.1,
  )
]

order_rows-Descending : (xs : List RuleRow) → Descending (order_rows xs)
order_rows-Descending [] = tt
order_rows-Descending (x ∷ xs) = insert_row-Descending x (order_rows xs) (order_rows-Descending xs)

order_rows-All : (P : RuleRow → Type 0) (xs : List RuleRow) → All P xs → All P (order_rows xs)
order_rows-All P [] h = tt
order_rows-All P (x ∷ xs) h = insert_row-All P x (order_rows xs) h.0 (order_rows-All P xs h.1)

insert_row-length : (r : RuleRow) (xs : List RuleRow) → length (insert_row r xs) ≡ length xs + 1
insert_row-length r [] = refl
insert_row-length r (x ∷ xs) = elim (Bool-cases (leb x.sort r.sort)) [
  | inl e ↦ rw e (omega arith)
  | inr e ↦ rw e (omega (arith, insert_row-length r xs))
]

order_rows-length : (xs : List RuleRow) → length (order_rows xs) ≡ length xs
order_rows-length [] = refl
order_rows-length (x ∷ xs) =
    omega (arith, insert_row-length x (order_rows xs), order_rows-length xs)

-- A user's rules are listed with those of higher `sort` first, all of them and no other user's, if the
-- query works and the user's id is not 0.
pub get_all_rules-Descending :
    (unmarshal : Text → List Value) (rows : List RuleRow) (user_id : ℕ)
    → user_id ≢ 0
    → (found : List RuleRow) × (get_all_rules unmarshal rows false user_id
        ≡ map (decode unmarshal) found)
      × Descending found
      × All (λ r. (r.user_id == user_id) ≡ true) found
      × (length found ≡ length (select (λ r. r.user_id == user_id) rows))
unfolding get_all_rules
get_all_rules-Descending unmarshal rows user_id h =
    let own = select (λ r. r.user_id == user_id) rows in
    (
      order_rows own,
      ground (arith, h),
      order_rows-Descending own,
      order_rows-All (λ r. (r.user_id == user_id) ≡ true) own (select-All _ rows),
      order_rows-length own,
    )
