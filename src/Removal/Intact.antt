-- ===== src/Removal/Intact.antt =====
-- No deletion leaves a row whose mail is gone.
use pmail.Base.{
  ℕ, ◌≡◌, refl, ◌∙◌, inl, inr, Bool, true, false, Option, none, some, List, [], ◌∷◌, arith, ◌==◌,
  if◌then◌else◌, Bool-cases, any, All, All-map, All-select, All-zip,
}
use pmail.Db.{Error}
use pmail.Smtp.Audit.{Email, Store}
use pmail.Tables.{UserEmail, status_del, update_where, delete_where, count_where}
use pmail.Removal.Preserved.{del_email-Preserved, del_by_uid-Preserved}
use pmail.Removal.{
  Faults, relates, mark_deleted, delete_relation, delete_orphan, del_email, del_by_uid,
}

abbrev pub has_mail : ℕ → List Email → Bool
has_mail id emails = any (λ m. m.id == id) emails

-- Every row relates its user to a mail that is there.
abbrev pub Intact : Store → Type 0
Intact s = All (λ r. has_mail r.email_id s.emails ≡ true) s.user_emails

has_mail-delete :
    (k id : ℕ) (emails : List Email)
    → (k == id) ≡ false
    → has_mail k (delete_where (λ m. m.id == id) emails) ≡ has_mail k emails
has_mail-delete k id [] h = refl
has_mail-delete k id (m ∷ ms) h = ground (arith, has_mail-delete k id ms h)

count_where-zero {ℓ} :
    {A : Type ℓ} (p : A → Bool) (xs : List A)
    → (count_where p xs == 0) ≡ true
    → All (λ x. p x ≡ false) xs
count_where-zero p [] h = tt
count_where-zero p (x ∷ xs) h = elim (Bool-cases (p x)) [
  | inl e ↦ absurd (ground (arith, e))
  | inr e ↦ (e, count_where-zero p xs (ground (arith, e)))
]

delete_mail-Intact :
    (id : ℕ) (s : Store)
    → Intact s
    → All (λ r. (r.email_id == id) ≡ false) s.user_emails
    → Intact (record s { emails = delete_where (λ m. m.id == id) s.emails })
delete_mail-Intact id s h free =
    All-map _ _ s.user_emails (λ r k. has_mail-delete r.email_id id s.emails k.1 ∙ k.0)
      (All-zip _ _ s.user_emails h free)

delete_orphan-Intact :
    (c e : Option Error) (id : ℕ) (s : Store) → Intact s → Intact (delete_orphan c e id s).1
unfolding delete_orphan
delete_orphan-Intact (some c) e id s h = h
delete_orphan-Intact none e id s h =
    go (count_where (λ r. r.email_id == id) s.user_emails == 0) refl e
  where
    go :
        (b : Bool)
        → (count_where (λ r. r.email_id == id) s.user_emails == 0) ≡ b
        → (e : Option Error)
        → Intact
            (if b
              then elim e as (λ _. Option Error × Store) [
                | some e ↦ (some e, s)
                | none ↦ (none, record s { emails = delete_where (λ m. m.id == id) s.emails })
              ]
              else (none, s)).1
    go false k e = h
    go true k (some e) = h
    go true k none = delete_mail-Intact id s h (count_where-zero _ s.user_emails k)

mark-All :
    (P : ℕ → Type 0) (email_id user_id : ℕ) (rows : List UserEmail)
    → All (λ r. P r.email_id) rows
    → All
        (λ r. P r.email_id)
        (update_where
          (relates email_id user_id)
          (λ r. record r { status = status_del; group_id = 0 })
          rows)
mark-All P email_id user_id [] h = tt
mark-All P email_id user_id (r ∷ rs) h =
    (go (relates email_id user_id r), mark-All P email_id user_id rs h.1)
  where
    go : (b : Bool) → P (if b then record r { status = status_del; group_id = 0 } else r).email_id
    go true = h.0
    go false = h.0

marked-Intact : (id user_id : ℕ) (s : Store) → Intact s → Intact (mark_deleted id user_id s)
unfolding mark_deleted
marked-Intact id user_id s h = mark-All (λ k. has_mail k s.emails ≡ true) id user_id s.user_emails h

unrelated-Intact : (id user_id : ℕ) (s : Store) → Intact s → Intact (delete_relation id user_id s)
unfolding delete_relation
unrelated-Intact id user_id s h = All-select _ _ s.user_emails h

module _ (f : Faults) (user_id : ℕ) where
  -- If every row's mail is there, then no deletion, forced or not, leaves a row whose mail is
  -- gone, whichever statements fail.
  pub del_email-Intact :
      (ids : List ℕ) (forced_del : Bool) (s : Store)
      → Intact s
      → Intact (del_email f user_id ids forced_del s).1
  del_email-Intact =
      del_email-Preserved f user_id Intact (λ id s. marked-Intact id user_id s)
        (λ id s. unrelated-Intact id user_id s) delete_orphan-Intact
        (λ ue s h. All-select _ _ s.user_emails h)

  -- If every row's mail is there, then the deletion by row ids, which runs outside a transaction,
  -- leaves no row whose mail is gone either, wherever it stops.
  pub del_by_uid-Intact :
      (n : ℕ) (ids : List ℕ) (s : Store) → Intact s → Intact (del_by_uid f n user_id ids s).1
  del_by_uid-Intact =
      del_by_uid-Preserved f user_id Intact (λ id s. marked-Intact id user_id s)
        (λ id s. unrelated-Intact id user_id s) delete_orphan-Intact
        (λ ue s h. All-select _ _ s.user_emails h)
