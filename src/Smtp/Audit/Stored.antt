-- ===== src/Smtp/Audit/Stored.antt =====
-- What a transaction of the audit leaves in the tables when it succeeds.
use pmail.Base.{
  ℕ, ◌+◌, ◌≤◌, ◌≡◌, refl, ap, ◌∙◌, ◌≢◌, ◌⊎◌, inl, inr, Bool, true, false, Option, none, List, [],
  ◌∷◌, ◌++◌, arith, ◌==◌, All, All-map, Text,
}
use pmail.Db.Calls.{transaction_atomic}
use pmail.Smtp.Audit.{
  Email, Store, Faults, attempt, insert_relation, initial_audit, persist_initial_audit,
  delivery_result, persist_delivery_result,
}
use pmail.Tables.{update_where, count_where}

-- The mail and its one relation, behind the rows of `s`.
abbrev pub recorded : Email → ℕ → ℕ → Option Text → Store → Store
recorded m user_id status error_text s = record {
  emails =
      s.emails ++ record m { id = s.last_email_id + 1; status = status; error = error_text } ∷ [];
  user_emails =
      s.user_emails
      ++ record {
        id = s.last_user_email_id + 1;
        user_id = user_id;
        email_id = s.last_email_id + 1;
        is_read = 0;
        group_id = 0;
        status = status;
      }
        ∷ [];
  last_email_id = s.last_email_id + 1;
  last_user_email_id = s.last_user_email_id + 1;
}

-- No row bears an id, or refers to a mail, beyond the last that was given out.
pub record IsValid (s : Store) : Type 0 where
  pub emails_given : All (λ m. m.id ≤ s.last_email_id) s.emails
  pub relations_given : All (λ r. r.email_id ≤ s.last_email_id) s.user_emails

initial_audit-recorded :
    (m : Email) (user_id : ℕ) (f : Faults) (s s' : Store)
    → initial_audit m (user_id ∷ []) f s ≡ (none, s')
    → s' ≡ recorded m user_id m.status m.error s
unfolding initial_audit insert_relation
initial_audit-recorded m user_id f s s' h = ground arith

-- The first persistence records the mail and its relation, or changes nothing.
pub persist_initial_audit-recorded :
    (is_sqlite : Bool) (faults : ℕ → Faults) (m : Email) (user_id : ℕ) (s : Store)
    → let out = persist_initial_audit is_sqlite faults m (user_id ∷ []) s in
      ((out.error ≡ none) × (out.state ≡ recorded m user_id m.status m.error s))
      ⊎ ((out.error ≢ none) × (out.state ≡ s))
unfolding persist_initial_audit
persist_initial_audit-recorded is_sqlite faults m user_id s =
    elim (transaction_atomic is_sqlite
      (λ k. attempt (faults k) (initial_audit m (user_id ∷ []) (faults k))) s (λ k. refl)
      (λ k t. refl)) [
        | inl (ok, (k, e)) ↦ inl (ok, initial_audit-recorded m user_id (faults k) s _ e)
        | inr kept ↦ inr kept
      ]

-- Rows that do not fit stay, and the last one, which does, is changed.
pub update_where-last {ℓ} :
    {A : Type ℓ} (p : A → Bool) (f : A → A) (xs : List A) (y : A)
    → All (λ x. p x ≡ false) xs
    → p y ≡ true
    → update_where p f (xs ++ y ∷ []) ≡ xs ++ f y ∷ []
update_where-last p f [] y h e = rw e
update_where-last p f (x ∷ xs) y h e = rw (h.0, update_where-last p f xs y h.1 e)

count_where-last {ℓ} :
    {A : Type ℓ} (p : A → Bool) (xs : List A) (y : A)
    → All (λ x. p x ≡ false) xs
    → p y ≡ true
    → count_where p (xs ++ y ∷ []) ≡ 1
count_where-last p [] y h e = rw e
count_where-last p (x ∷ xs) y h e = rw h.0 (count_where-last p xs y h.1 e)

-- The tables behind both updates.
abbrev updated : ℕ → ℕ → Option Text → Store → Store
updated email_id status error_text s = record s {
  emails =
      update_where (λ m. m.id == email_id) (λ m. record m { status = status; error = error_text })
        s.emails;
  user_emails =
      update_where (λ r. r.email_id == email_id) (λ r. record r { status = status }) s.user_emails;
}

delivery_result-updated :
    (email_id status : ℕ) (error_text : Option Text) (f : Faults) (s s' : Store)
    → delivery_result email_id status error_text f s ≡ (none, s')
    → s' ≡ updated email_id status error_text s
unfolding delivery_result
delivery_result-updated email_id status error_text f s s' h = ground arith

delivery_result-one_each :
    (email_id status : ℕ) (error_text : Option Text) (f : Faults) (s : Store)
    → f.update_email ≡ none
    → f.update_user_email ≡ none
    → count_where (λ m. m.id == email_id) s.emails ≡ 1
    → count_where (λ r. r.email_id == email_id) s.user_emails ≡ 1
    → delivery_result email_id status error_text f s ≡ (none, updated email_id status error_text s)
unfolding delivery_result
delivery_result-one_each email_id status error_text f s a b c d = ground arith

pub le-ne_suc : (a n : ℕ) → a ≤ n → (a == n + 1) ≡ false
le-ne_suc a n h = ground arith

module _ (m : Email) (user_id old : ℕ) (old_error : Option Text) (s : Store)
    (valid : IsValid s) where
  emails_others : All (λ x. (x.id == s.last_email_id + 1) ≡ false) s.emails
  emails_others = All-map _ _ s.emails (λ x h. le-ne_suc x.id s.last_email_id h) valid.emails_given

  relations_others : All (λ r. (r.email_id == s.last_email_id + 1) ≡ false) s.user_emails
  relations_others =
      All-map _ _ s.user_emails (λ r h. le-ne_suc r.email_id s.last_email_id h)
        valid.relations_given

  self : (s.last_email_id + 1 == s.last_email_id + 1) ≡ true
  self = ground arith

  pub updated-recorded :
      (status : ℕ) (error_text : Option Text)
      → updated (s.last_email_id + 1) status error_text (recorded m user_id old old_error s)
        ≡ recorded m user_id status error_text s
  updated-recorded status error_text = cc (
    update_where-last (λ x. x.id == s.last_email_id + 1)
        (λ x. record x { status = status; error = error_text }) s.emails
        (record m { id = s.last_email_id + 1; status = old; error = old_error }) emails_others self,
    update_where-last (λ r. r.email_id == s.last_email_id + 1) (λ r. record r { status = status })
        s.user_emails
        (record {
          id = s.last_user_email_id + 1;
          user_id = user_id;
          email_id = s.last_email_id + 1;
          is_read = 0;
          group_id = 0;
          status = old;
        })
        relations_others self,
  )

  -- In tables where no row refers to an id beyond the last given out, the second persistence gives
  -- the recorded mail and its relation their final status, or changes nothing.
  pub persist_delivery_result-recorded :
      (is_sqlite : Bool) (faults : ℕ → Faults) (status : ℕ) (error_text : Option Text)
      → let out =
          persist_delivery_result is_sqlite faults
            (s.last_email_id + 1)
            status
            error_text
            (recorded m user_id old old_error s) in
        ((out.error ≡ none) × (out.state ≡ recorded m user_id status error_text s))
        ⊎ ((out.error ≢ none) × (out.state ≡ recorded m user_id old old_error s))
  unfolding persist_delivery_result
  persist_delivery_result-recorded is_sqlite faults status error_text =
      let start = recorded m user_id old old_error s in
      let id = s.last_email_id + 1 in
      elim (transaction_atomic is_sqlite
        (λ k. attempt (faults k) (delivery_result id status error_text (faults k))) start
        (λ k. refl) (λ k t. refl)) [
          | inl (ok, (k, e)) ↦ inl (
            ok,
            delivery_result-updated id status error_text (faults k) start _ e
                ∙ updated-recorded status error_text,
          )
          | inr kept ↦ inr kept
        ]

  -- With no failing statement in it, in tables where no row refers to an id beyond the last given
  -- out, the callback of the second persistence succeeds: each of its updates affects exactly one
  -- row.
  delivery_result-succeeds :
      (f : Faults) (status : ℕ) (error_text : Option Text)
      → f.update_email ≡ none
      → f.update_user_email ≡ none
      → delivery_result
          (s.last_email_id + 1)
          status
          error_text
          f
          (recorded m user_id old old_error s)
        ≡ (none, recorded m user_id status error_text s)
  delivery_result-succeeds f status error_text a b =
      let id = s.last_email_id + 1 in
      let one_mail =
        count_where-last (λ x. x.id == id) s.emails
          (record m { id = id; status = old; error = old_error }) emails_others self in
      let one_relation =
        count_where-last (λ r. r.email_id == id) s.user_emails
          (record {
            id = s.last_user_email_id + 1;
            user_id = user_id;
            email_id = id;
            is_read = 0;
            group_id = 0;
            status = old;
          })
          relations_others self in
      delivery_result-one_each id status error_text f (recorded m user_id old old_error s) a b
        one_mail one_relation
      ∙ ap (λ z. (none, z)) (updated-recorded status error_text)
