-- ===== src/Web/Accounts/Reached.antt =====
-- controllers/user.go and settings.go: what any sequence of requests leaves true of the users.
use pmail.Base.{
  ◌+◌, ◌≡◌, refl, Bool, true, false, not, ◌&&◌, ◌||◌, Option, none, some, List, [], ◌∷◌, ◌++◌, ◌==◌,
  if◌then◌else◌, or_false, is_empty, any, Text, text_eq,
}
use pmail.Smtp.Session.{encode_password}
use pmail.Tables.{User}
use pmail.Web.Accounts.{
  Users, UserRequest, Answer, sql_error, success, Fails, insert_user, create_user, wanted, edited,
  update_user, edit_user, modify_password,
}
use pmail.Web.Compose.{Login}
use pmail.Web.Accounts.Kept.{
  Kept, Kept-refl, Kept-trans, update_rows-Kept, administrators-new, Distinct-new,
}

-- One request, of whoever is logged in.
pub data Op : Type 0 where
  create edit : Fails → Login → UserRequest → Op
  password : Bool → Login → Text → Op

module _ (md5_hex : Text → Text) where
  abbrev pub serve : Op → Users → Users
  serve (create fails c q) t = (create_user md5_hex fails c q t).1
  serve (edit fails c q) t = (edit_user md5_hex fails c q t).1
  serve (password fails c p) t = (modify_password md5_hex fails c p t).1

  abbrev pub serve_all : List Op → Users → Users
  serve_all [] t = t
  serve_all (o ∷ os) t = serve_all os (serve o t)

-- What a request leaves, with its answer.
Keeps : Users → Answer × Users → Type 0
Keeps t r = Kept t r.1

keeps : (a : Answer) (t t' : Users) → Kept t t' → Keeps t (a, t')
unfolding Keeps
keeps a t t' h = h

if-Keeps :
    (b : Bool) (t : Users) (x y : Answer × Users)
    → Keeps t x
    → Keeps t y
    → Keeps t (if b then x else y)
if-Keeps true t x y h k = h
if-Keeps false t x y h k = k

module _ (md5_hex : Text → Text) where
  insert_user-Keeps :
      (fails : Bool) (q : UserRequest) (t : Users) → Keeps t (insert_user md5_hex fails q t)
  unfolding insert_user Keeps
  insert_user-Keeps fails q t = go (fails || any (λ r. text_eq r.account q.account) t.rows) refl
    where
      fresh : User
      fresh = record {
        id = t.last_id + 1;
        account = q.account;
        name = q.username;
        password = encode_password md5_hex q.password;
        is_admin = false;
        disabled = false;
      }

      go :
          (b : Bool)
          → (fails || any (λ r. text_eq r.account q.account) t.rows) ≡ b
          → Keeps t (
              if b
              then (sql_error, t)
              else (success, record { rows = t.rows ++ fresh ∷ []; last_id = t.last_id + 1 }))
      go true e = Kept-refl t
      go false e = record {
        administrators = administrators-new fresh t.rows refl;
        distinct = Distinct-new fresh t.rows (or_false fails _ e).1;
      }

  create_user-Keeps :
      (fails : Fails) (c : Login) (q : UserRequest) (t : Users)
      → Keeps t (create_user md5_hex fails c q t)
  unfolding create_user
  create_user-Keeps fails c q t =
      let same : (a : Answer) → Keeps t (a, t) = λ a. keeps a t t (Kept-refl t) in
      if-Keeps (not c.is_admin) t _ _ (same _) (
        if-Keeps (is_empty q.username || is_empty q.password || is_empty q.account) t _ _ (same _)
          (insert_user-Keeps fails.insert q t))

  update_user-Keeps :
      (fails : Fails) (q : UserRequest) (o : Option User) (t : Users)
      → Keeps t (update_user md5_hex fails q o t)
  unfolding update_user
  update_user-Keeps fails q none t = keeps _ t t (Kept-refl t)
  update_user-Keeps fails q (some r) t =
      let same : (a : Answer) → Keeps t (a, t) = λ a. keeps a t t (Kept-refl t) in
      if-Keeps (r.id == 0) t _ _ (same _) (
        if-Keeps fails.update t _ _ (same _) (
          keeps _ t _ (
            update_rows-Kept (λ x. x.id == r.id)
              (λ x. record x {
                name = (edited md5_hex q r).name;
                password = (edited md5_hex q r).password;
                disabled = (edited md5_hex q r).disabled;
              })
              t (λ x. refl) (λ x. refl))))

  edit_user-Keeps :
      (fails : Fails) (c : Login) (q : UserRequest) (t : Users)
      → Keeps t (edit_user md5_hex fails c q t)
  unfolding edit_user
  edit_user-Keeps fails c q t =
      let same : (a : Answer) → Keeps t (a, t) = λ a. keeps a t t (Kept-refl t) in
      if-Keeps (not c.is_admin) t _ _ (same _) (
        if-Keeps (q.id == 0 && is_empty q.account) t _ _ (same _)
          (update_user-Keeps fails q (wanted md5_hex fails q t) t))

  modify_password-Keeps :
      (fails : Bool) (c : Login) (p : Text) (t : Users)
      → Keeps t (modify_password md5_hex fails c p t)
  unfolding modify_password
  modify_password-Keeps fails c p t =
      let same : (a : Answer) → Keeps t (a, t) = λ a. keeps a t t (Kept-refl t) in
      if-Keeps (is_empty p) t _ _ (same _) (
        if-Keeps fails t _ _ (same _) (
          keeps _ t _ (
            update_rows-Kept (λ x. x.id == c.user_id)
              (λ x. record x { password = encode_password md5_hex p }) t (λ x. refl) (λ x. refl))))

  serve-Kept : (o : Op) (t : Users) → Kept t (serve md5_hex o t)
  unfolding Keeps
  serve-Kept (create fails c q) t = create_user-Keeps fails c q t
  serve-Kept (edit fails c q) t = edit_user-Keeps fails c q t
  serve-Kept (password fails c p) t = modify_password-Keeps fails c p t

  -- Any sequence of requests to create a user, to edit one or to change a password, whoever makes them
  -- and whichever statements fail, leaves the list of the administrators' account names as it was (their
  -- names, passwords and the flag that disables them may change), and no account name stands twice
  -- where none did.
  pub serve_all-Kept : (os : List Op) (t : Users) → Kept t (serve_all md5_hex os t)
  serve_all-Kept [] t = Kept-refl t
  serve_all-Kept (o ∷ os) t =
      Kept-trans t (serve md5_hex o t) _ (serve-Kept o t) (serve_all-Kept os (serve md5_hex o t))
