-- ===== src/Pop3/LoggedIn.antt =====
-- listen/pop3_server/action.go: whose mails a session reads and deletes.
use pmail.Base.{
  ℕ, ◌≡◌, refl, sym, ◌∙◌, ◌⊎◌, inl, inr, Bool, true, false, ◌&&◌, Option, none, some, List, [], ◌∷◌,
  arith, ltb, if◌then◌else◌, is_empty, select, All, select-All, In, In-selected, Text, text_eq,
}
use mathlib.Core.Path.{subst}
use pmail.Removal.{Faults, del_email}
use pmail.Removal.Others.{foreign_rows, del_email-foreign}
use pmail.Smtp.Audit.{Store}
use pmail.Smtp.Session.{login_account, encode_password}
use pmail.Tables.{User, first}
use pmail.Pop3.{
  has_password, has_account, Session, new_session, user, log_in, pass, apop_found, apop, delete,
  rest, quit,
}

-- The user of the session is an enabled one in one of the tables.
abbrev pub IsKnown : List (List User) → Session → Type 0
IsKnown seen s =
    (users : List User) × In users seen
    × (u : User) × In u users
    × (u.disabled ≡ false)
    × (u.id ≡ s.user_id)

-- The session is no administrator's; and in its transaction state its user is known.
pub record Trusted (seen : List (List User)) (s : Session) : Type 0 where
  pub no_admin : s.is_admin ≡ false
  pub known : (s.transaction ≡ false) ⊎ IsKnown seen s

module _ (md5_hex : Text → Text) where
  -- The sessions that commands reach, with the tables of users that its logins met, the last one first,
  -- and the other tables as they stand.
  pub data Reached : List (List User) → Session → Store → Type 0 where
    connected : (t : Store) → Reached [] new_session t
    did_user :
        (seen : List (List User)) (s : Session) (t : Store) (name : Text)
        → Reached seen s t
        → Reached seen (user name s) t
    did_pass :
        (seen : List (List User)) (users : List User) (s : Session) (t : Store) (pwd : Text)
        → Reached seen s t
        → Reached (users ∷ seen) (pass md5_hex users pwd s).1 t
    did_apop :
        (seen : List (List User)) (users : List User) (s : Session) (t : Store) (name digest : Text)
        → Reached seen s t
        → Reached (users ∷ seen) (apop md5_hex users name digest s).1 t
    did_delete :
        (seen : List (List User)) (s : Session) (t : Store) (order : List ℕ → List ℕ) (id : ℕ)
        → Reached seen s t
        → Reached seen (delete order id s) t
    did_rest :
        (seen : List (List User)) (s : Session) (t : Store)
        → Reached seen s t
        → Reached seen (rest s) t
    did_quit :
        (seen : List (List User)) (s : Session) (t : Store) (f : Faults)
        → Reached seen s t
        → Reached seen s (quit f s t)
    others_changed :
        (seen : List (List User)) (s : Session) (t t' : Store)
        → Reached seen s t
        → Reached seen s t'

module _ (users : List User) where
  abbrev IsEnabled : Option User → Type 0
  IsEnabled none = Unit
  IsEnabled (some u) = In u users × (u.disabled ≡ false)

  enabled :
      (p : User → Bool) (u : User)
      → ((r : User) → p r ≡ true → r.disabled ≡ false)
      → first (select p users) ≡ some u
      → In u users × (u.disabled ≡ false)
  enabled p u h e = go (select p users) (λ r. In-selected p r users) (select-All p users) e
    where
      go :
          (xs : List User)
          → ((r : User) → In r xs → In r users)
          → All (λ r. p r ≡ true) xs
          → first xs ≡ some u
          → In u users × (u.disabled ≡ false)
      go [] k a e = absurd cc
      go (x ∷ xs) k a e = subst IsEnabled e (k x (inl refl), h x a.0)

module _ (seen : List (List User)) (users : List User) where
  later-Trusted : (s : Session) → Trusted seen s → Trusted (users ∷ seen) s
  later-Trusted s t = record {
    no_admin = t.no_admin;
    known = elim t.known [ inl e ↦ inl e | inr (us, i, u, m, d, e) ↦ inr (us, inr i, u, m, d, e) ];
  }

  if-Trusted :
      (b : Bool) (r : Bool × Session) (s : Session)
      → Trusted (users ∷ seen) r.1
      → Trusted (users ∷ seen) s
      → Trusted (users ∷ seen) (if b then r else (false, s)).1
  if-Trusted true r s h k = h
  if-Trusted false r s h k = k

  log_in-Trusted :
      (o : Option User) (s : Session)
      → ((u : User) → o ≡ some u → In u users × (u.disabled ≡ false))
      → Trusted (users ∷ seen) s
      → Trusted (users ∷ seen) (log_in o s).1
  unfolding log_in
  log_in-Trusted none s h t = t
  log_in-Trusted (some r) s h t =
      let (m, d) = h r refl in
      if-Trusted (ltb 0 r.id) (true, record s { transaction = true; user_id = r.id }) s
        (record { no_admin = t.no_admin; known = inr (users, inl refl, r, m, d, refl) }) t

  apop_found-Trusted :
      (md5_hex : Text → Text) (o : Option User) (account digest : Text) (s : Session)
      → ((u : User) → o ≡ some u → In u users × (u.disabled ≡ false))
      → Trusted (users ∷ seen) s
      → Trusted (users ∷ seen) (apop_found md5_hex o account digest s).1
  unfolding apop_found
  apop_found-Trusted md5_hex none account digest s h t = t
  apop_found-Trusted md5_hex (some r) account digest s h t =
      let (m, d) = h r refl in
      if-Trusted (ltb 0 r.id && text_eq digest (md5_hex r.password))
        (true, record s { user = account; transaction = true; user_id = r.id }) s
        (record { no_admin = t.no_admin; known = inr (users, inl refl, r, m, d, refl) }) t

module _ (md5_hex : Text → Text) where
  same_login :
      (seen : List (List User)) (s s' : Session)
      → s'.is_admin ≡ s.is_admin
      → s'.transaction ≡ s.transaction
      → s'.user_id ≡ s.user_id
      → Trusted seen s
      → Trusted seen s'
  same_login seen s s' a b c t = record {
    no_admin = a ∙ t.no_admin;
    known = elim t.known [
      | inl e ↦ inl (b ∙ e)
      | inr (users, i, u, m, d, e) ↦ inr (users, i, u, m, d, e ∙ sym c)
    ];
  }

  Reached-Trusted :
      (seen : List (List User)) (s : Session) (t : Store)
      → Reached md5_hex seen s t
      → Trusted seen s
  unfolding user pass apop delete rest
  Reached-Trusted _ _ _ (connected t) = record { no_admin = refl; known = inl refl }
  Reached-Trusted _ _ _ (did_user seen s t name r) =
      same_login seen s (user name s) refl refl refl (Reached-Trusted seen s t r)
  Reached-Trusted _ _ _ (did_pass seen users s t pwd r) =
      let right = has_password s.user (encode_password md5_hex pwd) in
      log_in-Trusted seen users (first (select right users)) s
        (λ u. enabled users right u (λ x k. ground (arith, k)))
        (later-Trusted seen users s (Reached-Trusted seen s t r))
  Reached-Trusted _ _ _ (did_apop seen users s t name digest r) =
      let right = has_account (login_account name) in
      apop_found-Trusted seen users md5_hex (first (select right users)) (login_account name) digest
        s (λ u. enabled users right u (λ x k. ground (arith, k)))
        (later-Trusted seen users s (Reached-Trusted seen s t r))
  Reached-Trusted _ _ _ (did_delete seen s t order id r) =
      same_login seen s (delete order id s) refl refl refl (Reached-Trusted seen s t r)
  Reached-Trusted _ _ _ (did_rest seen s t r) =
      same_login seen s (rest s) refl refl refl (Reached-Trusted seen s t r)
  Reached-Trusted _ _ _ (did_quit seen s t f r) = Reached-Trusted seen s t r
  Reached-Trusted _ _ _ (others_changed seen s t t' r) = Reached-Trusted seen s t r

  -- In a session that commands reach from a new one, while other sessions change the tables, the one of
  -- users included: in its transaction state its user was an enabled one of a table that a login of
  -- the session met; and QUIT leaves the rows of the other users as they are, whichever of its
  -- statements fail.
  pub Reached-confined :
      (seen : List (List User)) (s : Session) (t : Store) (f : Faults)
      → Reached md5_hex seen s t
      → ((s.transaction ≡ false) ⊎ IsKnown seen s)
        × (foreign_rows s.user_id (quit f s t).user_emails ≡ foreign_rows s.user_id t.user_emails)
  unfolding quit
  Reached-confined seen s t f r = ((Reached-Trusted seen s t r).known, kept (is_empty s.delete_ids))
    where
      kept :
          (b : Bool)
          → foreign_rows s.user_id
              (if b then t else (del_email f s.user_id s.delete_ids false t).1).user_emails
            ≡ foreign_rows s.user_id t.user_emails
      kept true = refl
      kept false = del_email-foreign f s.user_id s.delete_ids false t
