-- ===== src/Removal/Preserved.antt =====
-- What every statement of a deletion preserves, the deletion preserves.
use pmail.Base.{ℕ, ◌+◌, Bool, true, false, ◌&&◌, Option, none, some, List, [], ◌∷◌, arith, ◌==◌}
use pmail.Db.{Error}
use pmail.Smtp.Audit.{Store}
use pmail.Tables.{UserEmail, delete_where}
use pmail.Removal.{
  Faults, mark_deleted, delete_relation, delete_orphan, delete_one, delete_all, del_email, find_row,
  del_found, del_by_uid,
}

-- The tables without one row of a user.
abbrev pub without_row : ℕ → UserEmail → Store → Store
without_row user_id ue s = record s {
  user_emails = delete_where (λ r. r.id == ue.id && r.user_id == user_id) s.user_emails;
}

module _ (f : Faults) (user_id : ℕ) (P : Store → Type 0)
    (marked : (id : ℕ) (s : Store) → P s → P (mark_deleted id user_id s))
    (unrelated : (id : ℕ) (s : Store) → P s → P (delete_relation id user_id s))
    (orphaned : (c e : Option Error) (id : ℕ) (s : Store) → P s → P (delete_orphan c e id s).1)
    (removed : (ue : UserEmail) (s : Store) → P s → P (without_row user_id ue s)) where
  delete_one-Preserved :
      (n : ℕ) (forced_del : Bool) (id : ℕ) (s : Store)
      → P s
      → P (delete_one f n user_id forced_del id s).1
  unfolding delete_one
  delete_one-Preserved n false id s h = go (f.update_error n)
    where
      go :
          (o : Option Error)
          → P
              (elim o as (λ _. Option Error × Store) [
                | some e ↦ (some e, s)
                | none ↦ (none, mark_deleted id user_id s)
              ]).1
      go none = marked id s h
      go (some e) = h
  delete_one-Preserved n true id s h = go (f.relation_error n)
    where
      go :
          (o : Option Error)
          → P
              (elim o as (λ _. Option Error × Store) [
                | some e ↦ (some e, s)
                | none ↦
                    delete_orphan
                      (f.count_error n)
                      (f.email_error n)
                      id
                      (delete_relation id user_id s)
              ]).1
      go none =
          orphaned (f.count_error n) (f.email_error n) id (delete_relation id user_id s)
            (unrelated id s h)
      go (some e) = h

  delete_all-Preserved :
      (n : ℕ) (forced_del : Bool) (ids : List ℕ) (s : Store)
      → P s
      → P (delete_all f n user_id forced_del ids s).1
  unfolding delete_all
  delete_all-Preserved n forced_del [] s h = h
  delete_all-Preserved n forced_del (id ∷ ids) s h =
      go (delete_one f n user_id forced_del id s) (delete_one-Preserved n forced_del id s h)
        (delete_all-Preserved (n + 1) forced_del ids (delete_one f n user_id forced_del id s).1)
    where
      go :
          (r : Option Error × Store)
          → P r.1
          → (P r.1 → P (delete_all f (n + 1) user_id forced_del ids r.1).1)
          → P
              (elim r.0 as (λ _. Option Error × Store) [
                | some e ↦ (some e, r.1)
                | none ↦ delete_all f (n + 1) user_id forced_del ids r.1
              ]).1
      go (none, t) k later = later k
      go (some e, t) k later = k

  pub del_email-Preserved :
      (ids : List ℕ) (forced_del : Bool) (s : Store)
      → P s
      → P (del_email f user_id ids forced_del s).1
  unfolding del_email
  del_email-Preserved ids forced_del s h =
      ground (arith, h, delete_all-Preserved 0 forced_del ids s h)

  del_found-Preserved :
      (n : ℕ) (ue : UserEmail) (s : Store) → P s → P (del_found f n user_id ue s).1
  unfolding del_found
  del_found-Preserved n ue s h = go (f.relation_error n) (f.count_error n)
    where
      kept : P (without_row user_id ue s)
      kept = removed ue s h

      go :
          (o c : Option Error)
          → P
              (elim o as (λ _. Option Error × Store) [
                | some e ↦ (some e, s)
                | none ↦ elim c [
                  | some e ↦ (some e, without_row user_id ue s)
                  | none ↦ (
                    none,
                    (delete_orphan none (f.email_error n) ue.email_id (without_row user_id ue s)).1,
                  )
                ]
              ]).1
      go (some e) c = h
      go none (some e) = kept
      go none none = orphaned none (f.email_error n) ue.email_id (without_row user_id ue s) kept

  pub del_by_uid-Preserved :
      (n : ℕ) (ids : List ℕ) (s : Store) → P s → P (del_by_uid f n user_id ids s).1
  unfolding del_by_uid
  del_by_uid-Preserved n [] s h = h
  del_by_uid-Preserved n (id ∷ ids) s h =
      go (find_row (f.find_error n) user_id id s.user_emails) (del_by_uid-Preserved (n + 1) ids)
    where
      next :
          (r : Option Error × Store)
          → P r.1
          → ((t : Store) → P t → P (del_by_uid f (n + 1) user_id ids t).1)
          → P
              (elim r.0 as (λ _. Option Error × Store) [
                | some e ↦ (some e, r.1)
                | none ↦ del_by_uid f (n + 1) user_id ids r.1
              ]).1
      next (none, t) k later = later t k
      next (some e, t) k later = k

      go :
          (o : Option UserEmail)
          → ((t : Store) → P t → P (del_by_uid f (n + 1) user_id ids t).1)
          → P
              (elim o as (λ _. Option Error × Store) [
                | none ↦ (none, s)
                | some ue ↦
                    let r = del_found f n user_id ue s in
                    elim r.0 [
                      | some e ↦ (some e, r.1)
                      | none ↦ del_by_uid f (n + 1) user_id ids r.1
                    ]
              ]).1
      go none later = h
      go (some ue) later = next (del_found f n user_id ue s) (del_found-Preserved n ue s h) later
