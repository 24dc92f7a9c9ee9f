-- ===== src/Web/Accounts.antt =====
-- controllers/user.go, login.go and settings.go: the users, whom only an administrator changes, and the
-- password of one's own.
pub mod Kept
pub mod Reached
use pmail.Base.{
  ℕ, ◌+◌, Bool, false, not, ◌&&◌, ◌||◌, Option, none, some, List, [], ◌∷◌, ◌++◌, ◌==◌,
  if◌then◌else◌, is_empty, any, select, Text, text_eq,
}
use pmail.Arrays.{difference}
use pmail.Smtp.Session.{encode_password}
use pmail.Tables.{User, first, update_where}
use pmail.Web.Compose.{Login}

-- The table of users, with the last id that it has given out.
pub record Users : Type 0 where
  pub rows : List User
  pub last_id : ℕ

-- `userCreateRequest`; an account is disabled unless the number is 0.
pub record UserRequest : Type 0 where
  pub id : ℕ
  pub account : Text
  pub username : Text
  pub password : Text
  pub disabled : Bool

-- The answers: success, and the errors.
pub data Answer : Type 0 where
  success no_access params_error not_found sql_error bad_login : Answer

-- Which statements fail for a reason that is not modelled, and whether the update of a user counts no
-- row, as MySQL does where nothing changes.
pub record Fails : Type 0 where
  pub insert : Bool
  pub get : Bool
  pub update : Bool
  pub uncounted : Bool

module _ (md5_hex : Text → Text) where
  -- `Insert(&user)`: the column account is unique, and both flags have the default 0.
  unfoldable pub insert_user : Bool → UserRequest → Users → Answer × Users
  insert_user fails q t =
      if fails || any (λ r. text_eq r.account q.account) t.rows then (sql_error, t) else (
        success,
        record {
          rows =
              t.rows
              ++ record {
                id = t.last_id + 1;
                account = q.account;
                name = q.username;
                password = encode_password md5_hex q.password;
                is_admin = false;
                disabled = false;
              }
                ∷ [];
          last_id = t.last_id + 1;
        },
      )

  -- `CreateUser`
  unfoldable pub create_user : Fails → Login → UserRequest → Users → Answer × Users
  unfolding insert_user
  create_user fails c q t =
      if not c.is_admin
      then (no_access, t)
      else if is_empty q.username || is_empty q.password || is_empty q.account
      then (params_error, t)
      else insert_user fails.insert q t

  -- The user that `EditUser` is to change, by its id or else by its account.
  unfoldable pub wanted : Fails → UserRequest → Users → Option User
  wanted fails q t =
      if fails.get
      then none
      else if q.id == 0
      then first (select (λ r. text_eq r.account q.account) t.rows)
      else first (select (λ r. r.id == q.id) t.rows)

  -- The fields that `EditUser` changes.
  unfoldable pub edited : UserRequest → User → User
  edited q r = record r {
    name = if is_empty q.username then r.name else q.username;
    disabled = q.disabled;
    password = if is_empty q.password then r.password else encode_password md5_hex q.password;
  }

  -- The end of `EditUser`, with the columns name, password and disabled of the user that was read.
  unfoldable pub update_user : Fails → UserRequest → Option User → Users → Answer × Users
  unfolding edited
  update_user fails q none t = (not_found, t)
  update_user fails q (some r) t =
      if r.id == 0 then (not_found, t) else if fails.update then (sql_error, t) else (
        if fails.uncounted then sql_error else success,
        record t {
          rows =
              update_where (λ x. x.id == r.id)
                (λ x. record x {
                  name = (edited q r).name;
                  password = (edited q r).password;
                  disabled = (edited q r).disabled;
                })
                t.rows;
        },
      )

  -- `EditUser`
  unfoldable pub edit_user : Fails → Login → UserRequest → Users → Answer × Users
  unfolding wanted update_user
  edit_user fails c q t =
      if not c.is_admin
      then (no_access, t)
      else if q.id == 0 && is_empty q.account
      then (params_error, t)
      else update_user fails q (wanted fails q t) t

  -- `ModifyPassword`: an empty password changes nothing, and is a success.
  unfoldable pub modify_password : Bool → Login → Text → Users → Answer × Users
  modify_password fails c password t =
      if is_empty password then (success, t) else if fails then (sql_error, t) else (
        success,
        record t {
          rows =
              update_where (λ x. x.id == c.user_id)
                (λ x. record x { password = encode_password md5_hex password }) t.rows;
        },
      )

  -- The query of `Login`, for an enabled account with such a password.
  unfoldable pub login : Bool → Text → Text → Users → Option User
  login fails account password t =
      let encoded = encode_password md5_hex password in
      if fails
      then none
      else first (
          select (λ r. text_eq r.account account && text_eq r.password encoded && not r.disabled)
            t.rows)

-- The list of domains of `Login` and `Info`: the main one first.
unfoldable pub shown_domains : List Text → Text → List Text
shown_domains domains domain = domain ∷ difference text_eq domains (domain ∷ [])
