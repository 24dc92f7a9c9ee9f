-- ===== src/Rules/Actions.antt =====
-- services/rule/rule.go: `DoRule` and `doMove`. An SQL error is logged only: `first_fails` and
-- `second_fails` say which statements of the action fail.
use pmail.Base.{
  ℕ, ◌≡◌, refl, ap, ◌∙◌, ◌≢◌, inl, inr, Bool, true, false, not, ◌&&◌, List, [], ◌∷◌, arith, ltb,
  ◌==◌, if◌then◌else◌, Bool-cases, select, Text, Unicode,
}
use pmail.Parsemail.{MailLib}
use pmail.Rules.{Rule, Mail, read_action, forward_action, delete_action, move_action}
use pmail.Rules.Forwarding.{Forwarded, ForwardWorld, Sending, do_forward}
use pmail.Smtp.Audit.{Store}
use pmail.Tables.{
  UserEmail, User, type_receive, type_send, status_del, status_drafts, status_junk, inbox, sent,
  drafts, deleted, junk, update_where,
}

pub record Fails : Type 0 where
  pub first_fails : Bool
  pub second_fails : Bool

-- `Where("email_id=? and user_id=?", …).Cols(…).Update(…)`
unfoldable pub update_rows : Bool → ℕ → ℕ → (UserEmail → UserEmail) → Store → Store
update_rows fails email_id user_id f s = if fails then s else record s {
  user_emails = update_where (λ r. r.email_id == email_id && r.user_id == user_id) f s.user_emails;
}

-- `Where("id=?", …).Cols("type").Update(…)`
unfoldable pub update_kind : Bool → ℕ → ℕ → Store → Store
update_kind fails email_id kind s = if fails then s else record s {
  emails = update_where (λ m. m.id == email_id) (λ m. record m { kind = kind }) s.emails;
}

abbrev regroup : ℕ → ℕ → UserEmail → UserEmail
regroup group_id status r = record r { group_id = group_id; status = status }

-- `doMove`, to the group of the code
unfoldable pub move_to : Fails → ℕ → ℕ → ℕ → Store → Store
unfolding update_rows update_kind
move_to f email_id user_id group s =
    if group == inbox
    then update_rows f.second_fails email_id user_id (regroup 0 0)
        (update_kind f.first_fails email_id type_receive s)
    else if group == sent
    then update_rows f.second_fails email_id user_id (regroup 0 0)
        (update_kind f.first_fails email_id type_send s)
    else if group == drafts
    then update_rows f.first_fails email_id user_id (regroup 0 status_drafts) s
    else if group == deleted
    then update_rows f.first_fails email_id user_id (regroup 0 status_del) s
    else if group == junk
    then update_rows f.first_fails email_id user_id (regroup 0 status_junk) s
    else update_rows f.first_fails email_id user_id (λ r. record r { group_id = group }) s

module _ (lib : MailLib) (u : Unicode) (sql_lower : Text → Text) (to_int : Text → ℕ)
    (domains : List Text) (main_domain : Text) where
  -- `DoRule`: the tables, and the mails sent.
  unfoldable pub do_rule :
      Fails → ForwardWorld → Rule → Mail → User → Text → Store → Store × List Sending
  do_rule f w rule m owner raw_data s =
      if rule.action == read_action
      then (
        if ltb 0 m.message_id
            then update_rows f.first_fails m.message_id rule.user_id (λ r. record r { is_read = 1 })
                s
            else s,
        [],
      )
      else if rule.action == delete_action
      then (
        update_rows f.first_fails m.message_id rule.user_id (λ r. record r { status = status_del })
            s,
        [],
      )
      else if rule.action == forward_action
      then forward_outcome
          (do_forward lib u sql_lower domains main_domain w m rule.params owner raw_data s)
      else if rule.action == move_action
      then (move_to f m.message_id rule.user_id (to_int rule.params) s, [])
      else (s, [])
    where
      forward_outcome : Forwarded → Store × List Sending
      forward_outcome r = (r.store, r.sent)

-- The rows of all other mails and of all other users.
abbrev pub others : ℕ → ℕ → List UserEmail → List UserEmail
others email_id user_id rows =
    select (λ r. not (r.email_id == email_id && r.user_id == user_id)) rows

-- A change of the rows that meet a test, which still meet it, keeps the other rows.
select-update_where {ℓ} :
    {A : Type ℓ} (p : A → Bool) (f : A → A) (xs : List A)
    → ((x : A) → p x ≡ true → p (f x) ≡ true)
    → select (λ x. not (p x)) (update_where p f xs) ≡ select (λ x. not (p x)) xs
select-update_where p f [] h = refl
select-update_where p f (x ∷ xs) h = elim (Bool-cases (p x)) [
  | inl e ↦ rw (e, h x e) (select-update_where p f xs h)
  | inr e ↦ rw (e, e) (ap (λ l. x ∷ l) (select-update_where p f xs h))
]

module _ (email_id user_id : ℕ) where
  -- Nothing changes but the rows of one mail and user, and the kind of that mail.
  pub record Framed (s s' : Store) : Type 0 where
    pub rows : others email_id user_id s'.user_emails ≡ others email_id user_id s.user_emails
    pub emails :
        select (λ m. not (m.id == email_id)) s'.emails
        ≡ select (λ m. not (m.id == email_id)) s.emails
    pub last_email_id : s'.last_email_id ≡ s.last_email_id
    pub last_user_email_id : s'.last_user_email_id ≡ s.last_user_email_id

  Framed-refl : (s : Store) → Framed s s
  Framed-refl s = record {
    rows = refl;
    emails = refl;
    last_email_id = refl;
    last_user_email_id = refl;
  }

  update_rows-Framed :
      (fails : Bool) (f : UserEmail → UserEmail) (s : Store)
      → ((r : UserEmail) → (f r).email_id ≡ r.email_id)
      → ((r : UserEmail) → (f r).user_id ≡ r.user_id)
      → Framed s (update_rows fails email_id user_id f s)
  unfolding update_rows
  update_rows-Framed true f s e u = Framed-refl s
  update_rows-Framed false f s e u = record {
    rows =
        select-update_where (λ r. r.email_id == email_id && r.user_id == user_id) f s.user_emails
          (λ r h. rw (e r, u r) h);
    emails = refl;
    last_email_id = refl;
    last_user_email_id = refl;
  }

  update_kind-Framed :
      (fails : Bool) (kind : ℕ) (s : Store) → Framed s (update_kind fails email_id kind s)
  unfolding update_kind
  update_kind-Framed true kind s = Framed-refl s
  update_kind-Framed false kind s = record {
    rows = refl;
    emails =
        select-update_where (λ m. m.id == email_id) (λ m. record m { kind = kind }) s.emails
          (λ m h. h);
    last_email_id = refl;
    last_user_email_id = refl;
  }

  Framed-trans : (s t r : Store) → Framed s t → Framed t r → Framed s r
  Framed-trans s t r a b = record {
    rows = b.rows ∙ a.rows;
    emails = b.emails ∙ a.emails;
    last_email_id = b.last_email_id ∙ a.last_email_id;
    last_user_email_id = b.last_user_email_id ∙ a.last_user_email_id;
  }

  regroup-Framed :
      (fails : Bool) (group_id status : ℕ) (s : Store)
      → Framed s (update_rows fails email_id user_id (regroup group_id status) s)
  regroup-Framed fails group_id status s =
      update_rows-Framed fails (regroup group_id status) s (λ r. refl) (λ r. refl)

  Framed-if : (b : Bool) (s t r : Store) → Framed s t → Framed s r → Framed s (if b then t else r)
  Framed-if true s t r x y = x
  Framed-if false s t r x y = y

  move_to-Framed :
      (f : Fails) (group : ℕ) (s : Store) → Framed s (move_to f email_id user_id group s)
  unfolding move_to
  move_to-Framed f group s =
      let both : (kind : ℕ) → Framed s _ = λ kind.
        Framed-trans s _ _ (update_kind-Framed f.first_fails kind s)
          (regroup-Framed f.second_fails 0 0 (update_kind f.first_fails email_id kind s)) in
      Framed-if (group == inbox) s _ _ (both type_receive) (
        Framed-if (group == sent) s _ _ (both type_send) (
          Framed-if (group == drafts) s _ _ (regroup-Framed f.first_fails 0 status_drafts s) (
            Framed-if (group == deleted) s _ _ (regroup-Framed f.first_fails 0 status_del s) (
              Framed-if (group == junk) s _ _ (regroup-Framed f.first_fails 0 status_junk s) (
                update_rows-Framed f.first_fails (λ r. record r { group_id = group }) s (λ r. refl)
                  (λ r. refl))))))

module _ (lib : MailLib) (u : Unicode) (sql_lower : Text → Text) (to_int : Text → ℕ)
    (domains : List Text) (main_domain : Text) where
  -- A rule that does not forward sends nothing, and of the tables it changes no row but those of its
  -- mail and its own user, and the kind of that mail, whichever statements fail.
  pub do_rule-Framed :
      (f : Fails) (w : ForwardWorld) (rule : Rule) (m : Mail) (owner : User) (raw_data : Text)
      (s : Store)
      → rule.action ≢ forward_action
      → let r = do_rule lib u sql_lower to_int domains main_domain f w rule m owner raw_data s in
        Framed m.message_id rule.user_id s r.0 × (r.1 ≡ [])
  unfolding do_rule
  do_rule-Framed f w rule m owner raw_data s h =
      let id = m.message_id in
      let user = rule.user_id in
      let read =
        update_rows-Framed id user f.first_fails (λ r. record r { is_read = 1 }) s (λ r. refl)
          (λ r. refl) in
      let gone =
        update_rows-Framed id user f.first_fails (λ r. record r { status = status_del }) s
          (λ r. refl) (λ r. refl) in
      let moved = move_to-Framed id user f (to_int rule.params) s in
      ground (arith, Framed-refl id user s, read, gone, moved)
