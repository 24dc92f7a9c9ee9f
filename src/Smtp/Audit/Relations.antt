-- ===== src/Smtp/Audit/Relations.antt =====
-- The first persistence, for any number of users.
use pmail.Base.{
  ℕ, ◌+◌, ◌≡◌, refl, sym, ap, ◌∙◌, ◌≢◌, ◌⊎◌, inl, inr, Bool, none, List, [], ◌∷◌, ◌++◌,
  append_assoc, append-nil, arith, Option-cases,
}
use pmail.Db.Calls.{transaction_atomic}
use pmail.Smtp.Audit.{
  Email, Store, Faults, attempt, insert_relation, insert_relations, insert_email, initial_audit,
  persist_initial_audit,
}
use pmail.Tables.{UserEmail}

-- One row for each user, with ids from `n` on.
abbrev pub relation_rows : ℕ → ℕ → ℕ → List ℕ → List UserEmail
relation_rows n email_id status [] = []
relation_rows n email_id status (user_id ∷ ids) =
    record {
      id = n;
      user_id = user_id;
      email_id = email_id;
      is_read = 0;
      group_id = 0;
      status = status;
    }
    ∷ relation_rows (n + 1) email_id status ids

insert_relations-rows :
    (f : Faults) (n email_id status : ℕ) (ids : List ℕ) (s s' : Store)
    → insert_relations f n email_id status ids s ≡ (none, s')
    → (s'.emails ≡ s.emails)
      × (s'.user_emails
          ≡ s.user_emails ++ relation_rows (s.last_user_email_id + 1) email_id status ids)
unfolding insert_relations insert_relation
insert_relations-rows f n email_id status [] s s' h =
    (cc h, ap (λ t. t.1.user_emails) (sym h) ∙ sym (append-nil s.user_emails))
insert_relations-rows f n email_id status (user_id ∷ ids) s s' h =
    elim (Option-cases (f.insert_relation n)) [
      | inl e ↦
          let rest =
            insert_relations-rows f (n + 1) email_id status ids
              (insert_relation email_id user_id status s) s' (ground (arith, e)) in
          (rest.0, rest.1 ∙ append_assoc s.user_emails _ _)
      | inr (x, e) ↦ absurd (ground (arith, e))
    ]

-- The mail behind the others, and one row for each user behind the other rows.
abbrev pub Recorded : Email → List ℕ → Store → Store → Type 0
Recorded m ids s s' =
    (s'.emails ≡ s.emails ++ record m { id = s.last_email_id + 1 } ∷ [])
    × (s'.user_emails
        ≡ s.user_emails
          ++ relation_rows (s.last_user_email_id + 1) (s.last_email_id + 1) m.status ids)

initial_audit-Recorded :
    (m : Email) (ids : List ℕ) (f : Faults) (s s' : Store)
    → initial_audit m ids f s ≡ (none, s')
    → Recorded m ids s s'
unfolding initial_audit
initial_audit-Recorded m ids f s s' h = elim (Option-cases f.insert_email) [
  | inl e ↦
      insert_relations-rows f 0 (s.last_email_id + 1) m.status ids (insert_email m s) s'
        (ground (arith, e))
  | inr (x, e) ↦ absurd (ground (arith, e))
]

-- For any list of users, the first persistence records the mail with one row for each of them, or
-- ends with an error and changes nothing.
pub persist_initial_audit-Recorded :
    (is_sqlite : Bool) (faults : ℕ → Faults) (m : Email) (ids : List ℕ) (s : Store)
    → let out = persist_initial_audit is_sqlite faults m ids s in
      ((out.error ≡ none) × Recorded m ids s out.state) ⊎ ((out.error ≢ none) × (out.state ≡ s))
unfolding persist_initial_audit
persist_initial_audit-Recorded is_sqlite faults m ids s =
    elim (transaction_atomic is_sqlite (λ k. attempt (faults k) (initial_audit m ids (faults k))) s
      (λ k. refl) (λ k t. refl)) [
        | inl (ok, (k, e)) ↦ inl (ok, initial_audit-Recorded m ids (faults k) s _ e)
        | inr kept ↦ inr kept
      ]
