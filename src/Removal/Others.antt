-- ===== src/Removal/Others.antt =====
-- No deletion changes another user's rows.
use pmail.Base.{
  ℕ, ◌≡◌, refl, ap, ◌∙◌, Bool, true, false, not, ◌&&◌, Option, none, some, List, [], ◌∷◌, arith,
  ◌==◌, if◌then◌else◌, select, select-select, select_congr, All-of_forall,
}
use pmail.Db.{Error}
use pmail.Smtp.Audit.{Store}
use pmail.Tables.{UserEmail, update_where, delete_where}
use pmail.Removal.Preserved.{without_row, del_email-Preserved, del_by_uid-Preserved}
use pmail.Removal.{
  Faults, relates, mark_deleted, delete_relation, delete_orphan, del_email, del_by_uid,
}

-- The rows of the users other than a given one.
abbrev pub foreign_rows : ℕ → List UserEmail → List UserEmail
foreign_rows user_id rows = select (λ r. not (r.user_id == user_id)) rows

pub update_where-foreign :
    (user_id : ℕ) (p : UserEmail → Bool) (f : UserEmail → UserEmail) (rows : List UserEmail)
    → ((r : UserEmail) → p r ≡ true → (r.user_id == user_id) ≡ true)
    → ((r : UserEmail) → (f r).user_id ≡ r.user_id)
    → foreign_rows user_id (update_where p f rows) ≡ foreign_rows user_id rows
update_where-foreign user_id p f [] h k = refl
update_where-foreign user_id p f (r ∷ rs) h k =
    go (p r) (h r) (update_where-foreign user_id p f rs h k)
  where
    go :
        (b : Bool)
        → (b ≡ true → (r.user_id == user_id) ≡ true)
        → foreign_rows user_id (update_where p f rs) ≡ foreign_rows user_id rs
        → foreign_rows user_id ((if b then f r else r) ∷ update_where p f rs)
          ≡ foreign_rows user_id (r ∷ rs)
    go true l e =
        let own = l refl in
        let own' : ((f r).user_id == user_id) ≡ true = ap (λ i. i == user_id) (k r) ∙ own in
        rw own (rw own' e)
    go false l e = ap (λ xs. if not (r.user_id == user_id) then r ∷ xs else xs) e

delete_where-foreign :
    (user_id : ℕ) (p : UserEmail → Bool) (rows : List UserEmail)
    → ((r : UserEmail) → p r ≡ true → (r.user_id == user_id) ≡ true)
    → foreign_rows user_id (delete_where p rows) ≡ foreign_rows user_id rows
delete_where-foreign user_id p rows h =
    select-select _ _ rows
    ∙ select_congr _ _ rows
        (All-of_forall _ rows (λ r. absorbed (p r) (r.user_id == user_id) (h r)))
  where
    absorbed : (a b : Bool) → (a ≡ true → b ≡ true) → (not a && not b) ≡ not b
    absorbed true b k = rw (k refl) refl
    absorbed false b k = refl

delete_orphan-rows :
    (c e : Option Error) (id : ℕ) (s : Store)
    → (delete_orphan c e id s).1.user_emails ≡ s.user_emails
unfolding delete_orphan
delete_orphan-rows (some c) e id s = refl
delete_orphan-rows none e id s = ground arith

pub relates-own :
    (id user_id : ℕ) (r : UserEmail) → relates id user_id r ≡ true → (r.user_id == user_id) ≡ true
relates-own id user_id r h = ground (arith, h)

-- The rows of the other users are the given ones.
abbrev KeptFor : ℕ → List UserEmail → Store → Type 0
KeptFor user_id rows s = foreign_rows user_id s.user_emails ≡ rows

marked-KeptFor :
    (user_id : ℕ) (rows : List UserEmail) (id : ℕ) (s : Store)
    → KeptFor user_id rows s
    → KeptFor user_id rows (mark_deleted id user_id s)
unfolding mark_deleted
marked-KeptFor user_id rows id s h =
    update_where-foreign user_id _ _ s.user_emails (relates-own id user_id) (λ r. refl) ∙ h

unrelated-KeptFor :
    (user_id : ℕ) (rows : List UserEmail) (id : ℕ) (s : Store)
    → KeptFor user_id rows s
    → KeptFor user_id rows (delete_relation id user_id s)
unfolding delete_relation
unrelated-KeptFor user_id rows id s h =
    delete_where-foreign user_id _ s.user_emails (relates-own id user_id) ∙ h

without_row-KeptFor :
    (user_id : ℕ) (rows : List UserEmail) (ue : UserEmail) (s : Store)
    → KeptFor user_id rows s
    → KeptFor user_id rows (without_row user_id ue s)
without_row-KeptFor user_id rows ue s h =
    delete_where-foreign user_id _ s.user_emails (λ r k. ground (arith, k)) ∙ h

module _ (f : Faults) (user_id : ℕ) where
  pub del_email-foreign :
      (ids : List ℕ) (forced_del : Bool) (s : Store)
      → foreign_rows user_id (del_email f user_id ids forced_del s).1.user_emails
        ≡ foreign_rows user_id s.user_emails
  del_email-foreign ids forced_del s =
      let rows = foreign_rows user_id s.user_emails in
      del_email-Preserved f user_id (KeptFor user_id rows) (marked-KeptFor user_id rows)
        (unrelated-KeptFor user_id rows)
        (λ c e id t h. ap (foreign_rows user_id) (delete_orphan-rows c e id t) ∙ h)
        (without_row-KeptFor user_id rows) ids forced_del s refl

  pub del_by_uid-foreign :
      (n : ℕ) (ids : List ℕ) (s : Store)
      → foreign_rows user_id (del_by_uid f n user_id ids s).1.user_emails
        ≡ foreign_rows user_id s.user_emails
  del_by_uid-foreign n ids s =
      let rows = foreign_rows user_id s.user_emails in
      del_by_uid-Preserved f user_id (KeptFor user_id rows) (marked-KeptFor user_id rows)
        (unrelated-KeptFor user_id rows)
        (λ c e id t h. ap (foreign_rows user_id) (delete_orphan-rows c e id t) ∙ h)
        (without_row-KeptFor user_id rows) n ids s refl
