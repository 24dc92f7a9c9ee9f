-- ===== src/Removal/Deleted.antt =====
-- Which rows a deletion removes, and which it keeps.
use pmail.Base.{
  ℕ, ◌+◌, ◌≡◌, refl, sym, ap, ◌∙◌, ◌≢◌, ◌⊎◌, Bool, true, not, ◌&&◌, ◌||◌, Option, none, some, List,
  [], ◌∷◌, arith, any, select, select-select, select_congr, select-true, All-of_forall,
}
use pmail.Db.{Error}
use pmail.Smtp.Audit.{Store}
use pmail.Tables.{UserEmail}
use pmail.Removal.{
  Faults, relates, delete_relation, delete_orphan, delete_one, delete_all, del_email,
}

delete_one-rows :
    (f : Faults) (n user_id id : ℕ) (s : Store)
    → (delete_one f n user_id true id s).0 ≡ none
    → (delete_one f n user_id true id s).1.user_emails
      ≡ select (λ r. not (relates id user_id r)) s.user_emails
unfolding delete_one delete_relation delete_orphan
delete_one-rows f n user_id id s ok = ground arith

-- The rows that a deletion of the ids is to keep.
abbrev pub kept_rows : ℕ → List ℕ → List UserEmail → List UserEmail
kept_rows user_id ids rows = select (λ r. not (any (λ id. relates id user_id r) ids)) rows

not_or : (a b : Bool) → (not a && not b) ≡ not (a || b)
not_or a b = ground arith

delete_all-rows :
    (f : Faults) (n user_id : ℕ) (ids : List ℕ) (s : Store)
    → (delete_all f n user_id true ids s).0 ≡ none
    → (delete_all f n user_id true ids s).1.user_emails ≡ kept_rows user_id ids s.user_emails
unfolding delete_all
delete_all-rows f n user_id [] s ok = sym (select-true s.user_emails)
delete_all-rows f n user_id (id ∷ ids) s ok =
    go (delete_one f n user_id true id s) (delete_one-rows f n user_id id s)
      (delete_all-rows f (n + 1) user_id ids) ok
  where
    go :
        (r : Option Error × Store)
        → (r.0 ≡ none → r.1.user_emails ≡ select (λ r. not (relates id user_id r)) s.user_emails)
        → ((t : Store)
            → (delete_all f (n + 1) user_id true ids t).0 ≡ none
            → (delete_all f (n + 1) user_id true ids t).1.user_emails
              ≡ kept_rows user_id ids t.user_emails)
        → let out : Option Error × Store = elim r.0 as (λ _. Option Error × Store) [
          | some e ↦ (some e, r.1)
          | none ↦ delete_all f (n + 1) user_id true ids r.1
        ] in
          out.0 ≡ none → out.1.user_emails ≡ kept_rows user_id (id ∷ ids) s.user_emails
    go (none, t) one later k =
        later t k
        ∙ ap (kept_rows user_id ids) (one refl)
        ∙ select-select _ _ s.user_emails
        ∙ select_congr _ _ s.user_emails
            (All-of_forall _ s.user_emails (λ x. not_or (relates id user_id x) _))
    go (some e, t) one later k = absurd cc

-- A forced deletion either fails and changes nothing, or removes exactly the user's rows of the given
-- mails, and keeps every row of another mail or another user.
pub del_email-rows :
    (f : Faults) (user_id : ℕ) (ids : List ℕ) (s : Store)
    → let r = del_email f user_id ids true s in
      ((r.0 ≢ none) × (r.1 ≡ s))
      ⊎ ((r.0 ≡ none) × (r.1.user_emails ≡ kept_rows user_id ids s.user_emails))
unfolding del_email
del_email-rows f user_id ids s = ground (arith, delete_all-rows f 0 user_id ids s)
