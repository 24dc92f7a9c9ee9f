-- ===== src/Web/Accounts/Kept.antt =====
-- models/User.go: what the requests leave of the users' rows, their administrators and their accounts.
use pmail.Base.{
  ◌≡◌, refl, sym, ap, ◌∙◌, inl, inr, Bool, true, false, List, [], ◌∷◌, ◌++◌, if◌then◌else◌,
  Bool-cases, or_false, any, Text, text_eq, text_eq_iff,
}
use pmail.Tables.{User, update_where}
use pmail.Web.Accounts.{Users}

-- The accounts of the administrators.
abbrev pub administrators : List User → List Text
administrators [] = []
administrators (r ∷ rs) = if r.is_admin then r.account ∷ administrators rs else administrators rs

-- No account stands twice.
abbrev pub Distinct : List User → Type 0
Distinct [] = Unit
Distinct (r ∷ rs) = (any (λ x. text_eq x.account r.account) rs ≡ false) × Distinct rs

-- The relation that each request keeps.
pub record Kept (t t' : Users) : Type 0 where
  pub administrators : administrators t'.rows ≡ administrators t.rows
  pub distinct : Distinct t.rows → Distinct t'.rows

pub Kept-refl : (t : Users) → Kept t t
Kept-refl t = record { administrators = refl; distinct = λ d. d }

pub Kept-trans : (t t' t'' : Users) → Kept t t' → Kept t' t'' → Kept t t''
Kept-trans t t' t'' a b = record {
  administrators = b.administrators ∙ a.administrators;
  distinct = λ d. b.distinct (a.distinct d);
}

module _ (p : User → Bool) (f : User → User) (same_account : (r : User) → (f r).account ≡ r.account)
    (same_admin : (r : User) → (f r).is_admin ≡ r.is_admin) where
  update_where-administrators :
      (rs : List User) → administrators (update_where p f rs) ≡ administrators rs
  update_where-administrators [] = refl
  update_where-administrators (r ∷ rs) = elim (Bool-cases (p r)) [
    | inl e ↦ rw (e, same_admin r, same_account r, update_where-administrators rs) refl
    | inr e ↦ rw (e, update_where-administrators rs) refl
  ]

  update_where-any :
      (a : Text) (rs : List User)
      → any (λ x. text_eq x.account a) (update_where p f rs) ≡ any (λ x. text_eq x.account a) rs
  update_where-any a [] = refl
  update_where-any a (r ∷ rs) = elim (Bool-cases (p r)) [
    | inl e ↦ rw (e, same_account r, update_where-any a rs) refl
    | inr e ↦ rw (e, update_where-any a rs) refl
  ]

  update_where-Distinct : (rs : List User) → Distinct rs → Distinct (update_where p f rs)
  update_where-Distinct [] d = d
  update_where-Distinct (r ∷ rs) (d, ds) = elim (Bool-cases (p r)) [
    | inl e ↦ rw (e, same_account r, update_where-any r.account rs) (d, update_where-Distinct rs ds)
    | inr e ↦ rw (e, update_where-any r.account rs) (d, update_where-Distinct rs ds)
  ]

pub update_rows-Kept :
    (p : User → Bool) (f : User → User) (t : Users)
    → ((r : User) → (f r).account ≡ r.account)
    → ((r : User) → (f r).is_admin ≡ r.is_admin)
    → Kept t (record t { rows = update_where p f t.rows })
update_rows-Kept p f t a b = record {
  administrators = update_where-administrators p f a b t.rows;
  distinct = update_where-Distinct p f a b t.rows;
}

-- A new row at the end, of no administrator and with an account that is not there.
pub administrators-new :
    (r : User) (rs : List User)
    → r.is_admin ≡ false
    → administrators (rs ++ r ∷ []) ≡ administrators rs
administrators-new r [] h = rw h refl
administrators-new r (x ∷ rs) h = elim (Bool-cases x.is_admin) [
  | inl e ↦ rw e (ap (λ l. x.account ∷ l) (administrators-new r rs h))
  | inr e ↦ rw e (administrators-new r rs h)
]

text_eq_flip : (a b : Text) → text_eq a b ≡ false → text_eq b a ≡ false
text_eq_flip a b h = elim (Bool-cases (text_eq b a)) [
  | inr e ↦ e
  | inl e ↦
      let same = (text_eq_iff b a).0 e in
      absurd (true≢false (sym ((text_eq_iff a b).1 (sym same)) ∙ h))
]
  where
    true≢false : true ≡ false → ⊥
    true≢false h = cc h

any-new :
    (a : Text) (r : User) (rs : List User)
    → any (λ x. text_eq x.account a) rs ≡ false
    → text_eq r.account a ≡ false
    → any (λ x. text_eq x.account a) (rs ++ r ∷ []) ≡ false
any-new a r [] h k = rw k refl
any-new a r (x ∷ rs) h k =
    let both = or_false (text_eq x.account a) (any (λ x. text_eq x.account a) rs) h in
    rw both.0 (any-new a r rs both.1 k)

pub Distinct-new :
    (r : User) (rs : List User)
    → any (λ x. text_eq x.account r.account) rs ≡ false
    → Distinct rs
    → Distinct (rs ++ r ∷ [])
Distinct-new r [] h d = (refl, tt)
Distinct-new r (x ∷ rs) h (d, ds) =
    let both =
      or_false (text_eq x.account r.account) (any (λ x. text_eq x.account r.account) rs) h in
    (
      any-new x.account r rs d (text_eq_flip x.account r.account both.0),
      Distinct-new r rs both.1 ds,
    )
