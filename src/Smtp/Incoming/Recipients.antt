-- ===== src/Smtp/Incoming/Recipients.antt =====
-- Whom a received mail reaches, and what saving it leaves in the tables.
use pmail.Base.{
  ℕ, ◌≡◌, refl, sym, ap, ◌≢◌, ◌⊎◌, inl, inr, Bool, true, false, not, ◌&&◌, none, some, List, [],
  ◌∷◌, arith, if◌then◌else◌, Option-cases, is_empty, select, Text, Unicode,
}
use mathlib.Core.Path.{subst}
use pmail.Db.{Outcome}
use pmail.Parsemail.{MailUser, MailLib}
use pmail.Smtp.Audit.{Email, Store, Faults, persist_initial_audit}
use pmail.Smtp.Audit.Relations.{Recorded, persist_initial_audit-Recorded}
use pmail.Smtp.Incoming.{
  Parsed, World, Resolved, unresolved, dropped, resolved, Saved, not_persisted, sender_missing,
  incoming_accounts, is_addressed, is_spam, resolve_unknown, resolve_incoming_users, received,
  ids_of, persist_received, save_resolved, checks, save_email,
}
use pmail.Tables.{User}

module _ (u : Unicode) (lib : MailLib) (sql_lower : Text → Text) (w : World) (accounts : List Text)
    (spf dkim : Bool) where
  abbrev pub addressed : List User
  addressed = select (is_addressed u lib sql_lower w accounts) w.users

  -- Every addressed user, or, if there is none, every administrator.
  abbrev pub Right : List User → Type 0
  Right users =
      (users ≢ [])
      × ((users ≡ addressed) ⊎ ((addressed ≡ []) × (users ≡ select (λ r. r.is_admin) w.users)))

  abbrev pub Resolves : Resolved → Type 0
  Resolves (unresolved e) = Unit
  Resolves dropped = (addressed ≡ []) × (is_spam u lib sql_lower w spf dkim ≡ true)
  Resolves (resolved users) = Right users

  is_empty-nil {ℓ} : {A : Type ℓ} (xs : List A) → is_empty xs ≡ true → xs ≡ []
  is_empty-nil [] h = refl
  is_empty-nil (x ∷ xs) h = absurd cc

  is_empty-cons {ℓ} : {A : Type ℓ} (xs : List A) → is_empty xs ≡ false → xs ≢ []
  is_empty-cons [] h e = cc
  is_empty-cons (x ∷ xs) h e = cc

  Resolves-if :
      (b : Bool) (x y : Resolved)
      → (b ≡ true → Resolves x)
      → (b ≡ false → Resolves y)
      → Resolves (if b then x else y)
  Resolves-if true x y f g = f refl
  Resolves-if false x y f g = g refl

  resolve_unknown-Resolves : addressed ≡ [] → Resolves (resolve_unknown u lib sql_lower w spf dkim)
  unfolding resolve_unknown
  resolve_unknown-Resolves nobody =
      let admins = select (λ r. r.is_admin) w.users in
      Resolves-if (is_spam u lib sql_lower w spf dkim) _ _ (λ spam. (nobody, spam))
        (λ kept.
          Resolves-if w.admins_fail _ _ (λ failed. tt)
            (λ answered.
              Resolves-if (is_empty admins) _ _ (λ empty. tt)
                (λ found. (is_empty-cons admins found, inr (nobody, refl)))))

  negation_false : (b : Bool) → not b ≡ false → b ≡ true
  negation_false b h = ground arith

  negation_true : (b : Bool) → not b ≡ true → b ≡ false
  negation_true b h = ground arith

  resolve_incoming_users-Resolves :
      Resolves (resolve_incoming_users u lib sql_lower w accounts spf dkim)
  unfolding resolve_incoming_users
  resolve_incoming_users-Resolves =
      Resolves-if (not (is_empty accounts) && w.accounts_fail) _ _ (λ failed. tt)
        (λ answered.
          Resolves-if (not (is_empty addressed)) _ _
            (λ found. (is_empty-cons addressed (negation_true _ found), inl refl))
            (λ nobody. resolve_unknown-Resolves (is_empty-nil addressed (negation_false _ nobody))))

  -- Nothing was saved: there was an error, or the mail is for nobody and failed the checks that the
  -- spam filter asks for.
  abbrev pub NotSaved : Store → Saved → Type 0
  NotSaved s r =
      (r.store ≡ s)
      × ((r.error ≢ none) ⊎ ((addressed ≡ []) × (is_spam u lib sql_lower w spf dkim ≡ true)))

  -- The mail was saved, once, with one row for each of the right users.
  abbrev pub IsSaved : Email → Store → Saved → Type 0
  IsSaved m s r =
      (r.error ≡ none) × Right r.users × Recorded m (ids_of u lib sql_lower w r.users) s r.store

  persist_received-IsSaved :
      (is_sqlite : Bool) (faults : ℕ → Faults) (m : Email) (users : List User) (s : Store)
      → Right users
      → let r = persist_received u lib sql_lower w is_sqlite faults m users s in
        NotSaved s r ⊎ IsSaved m s r
  unfolding persist_received
  persist_received-IsSaved is_sqlite faults m users s right =
      go (persist_initial_audit is_sqlite faults m ids s)
        (persist_initial_audit-Recorded is_sqlite faults m ids s)
    where
      ids : List ℕ
      ids = ids_of u lib sql_lower w users

      go :
          (out : Outcome Store)
          → ((out.error ≡ none) × Recorded m ids s out.state)
            ⊎ ((out.error ≢ none) × (out.state ≡ s))
          → let r : Saved = elim out.error as (λ _. Saved) [
            | some e ↦ record { error = some not_persisted; users = users; store = out.state }
            | none ↦ record { error = none; users = users; store = out.state }
          ] in
            NotSaved s r ⊎ IsSaved m s r
      go out (inl (ok, done)) = rw ok (inr (refl, right, done))
      go out (inr (bad, same)) = elim (Option-cases out.error) [
        | inl ok ↦ absurd (bad ok)
        | inr (e, failed) ↦ rw failed (inl (same, inl (λ k. cc)))
      ]

  save_resolved-IsSaved :
      (is_sqlite : Bool) (faults : ℕ → Faults) (m : Email) (d : Resolved) (s : Store)
      → Resolves d
      → let r = save_resolved u lib sql_lower w is_sqlite faults m d s in
        NotSaved s r ⊎ IsSaved m s r
  unfolding save_resolved
  save_resolved-IsSaved is_sqlite faults m (unresolved e) s h = inl (refl, inl (λ k. cc))
  save_resolved-IsSaved is_sqlite faults m dropped s h = inl (refl, inr h)
  save_resolved-IsSaved is_sqlite faults m (resolved users) s h =
      persist_received-IsSaved is_sqlite faults m users s h

save_email-resolved :
    (u : Unicode) (lib : MailLib) (sql_lower : Text → Text) (w : World) (is_sqlite : Bool)
    (faults : ℕ → Faults) (size : ℕ) (m : Parsed) (sender : MailUser) (really_to : List Text)
    (spf dkim : Bool) (s : Store)
    → m.sent_from ≡ some sender
    → let c = checks u lib sql_lower w m spf dkim in
      save_email u lib sql_lower w is_sqlite faults size (some m) really_to spf dkim s
      ≡ save_resolved u lib sql_lower w is_sqlite faults
          (received u lib sql_lower w size m sender c.0 c.1)
          (resolve_incoming_users u lib sql_lower w
            (incoming_accounts u lib sql_lower w m really_to)
            c.0
            c.1)
          s
unfolding save_email
save_email-resolved u lib sql_lower w is_sqlite faults size m sender really_to spf dkim s from =
    let c = checks u lib sql_lower w m spf dkim in
    ap
      (λ o. elim o as (λ _. Saved) [
        | none ↦ record { error = some sender_missing; users = []; store = s }
        | some sender ↦
            save_resolved u lib sql_lower w is_sqlite faults
              (received u lib sql_lower w size m sender c.0 c.1)
              (resolve_incoming_users u lib sql_lower w
                (incoming_accounts u lib sql_lower w m really_to) c.0 c.1)
              s
      ])
      from

-- A received mail with a sender is saved once, with one row for every addressed user, or for every
-- administrator if no user is addressed; or the tables stay as they were, and there is an error, or
-- no user is addressed and the mail fails the spam filter's checks. No mail is saved for nobody.
pub save_email-IsSaved :
    (u : Unicode) (lib : MailLib) (sql_lower : Text → Text) (w : World) (is_sqlite : Bool)
    (faults : ℕ → Faults) (size : ℕ) (m : Parsed) (sender : MailUser) (really_to : List Text)
    (spf dkim : Bool) (s : Store)
    → m.sent_from ≡ some sender
    → let c = checks u lib sql_lower w m spf dkim in
      let accounts = incoming_accounts u lib sql_lower w m really_to in
      let r = save_email u lib sql_lower w is_sqlite faults size (some m) really_to spf dkim s in
      NotSaved u lib sql_lower w accounts c.0 c.1 s r
      ⊎ IsSaved u lib sql_lower w accounts c.0 c.1
          (received u lib sql_lower w size m sender c.0 c.1)
          s
          r
save_email-IsSaved u lib sql_lower w is_sqlite faults size m sender really_to spf dkim s from =
    let c = checks u lib sql_lower w m spf dkim in
    let accounts = incoming_accounts u lib sql_lower w m really_to in
    let mail = received u lib sql_lower w size m sender c.0 c.1 in
    subst
      (λ r.
        NotSaved u lib sql_lower w accounts c.0 c.1 s r
        ⊎ IsSaved u lib sql_lower w accounts c.0 c.1 mail s r)
      (sym (
        save_email-resolved u lib sql_lower w is_sqlite faults size m sender really_to spf dkim s
          from))
      (save_resolved-IsSaved u lib sql_lower w accounts c.0 c.1 is_sqlite faults mail
        (resolve_incoming_users u lib sql_lower w accounts c.0 c.1) s
        (resolve_incoming_users-Resolves u lib sql_lower w accounts c.0 c.1))
