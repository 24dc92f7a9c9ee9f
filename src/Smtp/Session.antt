-- ===== src/Smtp/Session.antt =====
-- listen/smtp_server/action.go: a session of the SMTP server. `password.Encode` is hashed by the
-- parameter `md5_hex`, and `LOWER` is the database's `sql_lower`.
pub mod Relay
use pmail.Base.{
  ℕ, Bool, false, not, ◌&&◌, ◌||◌, Option, none, some, List, [], ◌∷◌, ◌++◌, ltb, ◌==◌,
  if◌then◌else◌, is_empty, any, select, Text, codes, text_eq, trim_space, split, trim_set, Unicode,
  to_lower, equal_fold,
}
use pmail.Tables.{User, first}

-- `context.Context` and `Session`
pub record Session : Type 0 where
  pub user : Text
  pub from : Text
  pub to : List Text
  pub user_id : ℕ
  pub user_account : Text
  pub is_admin : Bool

-- `NewSession`
abbrev pub new_session : Session
new_session = record {
  user = [];
  from = [];
  to = [];
  user_id = 0;
  user_account = [];
  is_admin = false;
}

-- The SMTP replies of this file.
pub data Reply : Type 0 where
  ok password_error invalid_recipient relay_denied lookup_failed user_unknown : Reply

-- utils/password/encode.go: `Encode`
unfoldable pub encode_password : (Text → Text) → Text → Text
encode_password md5_hex p = md5_hex (md5_hex (p ++ codes "pmail") ++ codes "pmail2023")

-- `infos := strings.Split(username, "@")`, and `infos[0]` if there is more.
unfoldable pub login_account : Text → Text
login_account username = elim (split b'@' username) [
  | [] ↦ username
  | account ∷ rest ↦ if is_empty rest then username else account
]

-- `strings.LastIndex(s, "@")`, with what stands before and behind it.
unfoldable pub cut_last_at : Text → Option (Text × Text)
cut_last_at [] = none
cut_last_at (c ∷ cs) = elim (cut_last_at cs) [
  | some (a, b) ↦ some (c ∷ a, b)
  | none ↦ if c == b'@' then some ([], cs) else none
]

module _ (u : Unicode) where
  -- `splitSMTPAddress`
  unfoldable pub split_smtp_address : Text → Option (Text × Text)
  unfolding cut_last_at
  split_smtp_address address =
      elim (cut_last_at (trim_space (trim_set (λ c. c == b'<' || c == b'>') address))) [
        | none ↦ none
        | some (a, b) ↦
            let account = trim_space a in
            let domain = to_lower u (trim_space b) in
            if is_empty a || is_empty b
            then none
            else if is_empty account || is_empty domain
            then none
            else some (account, domain)
      ]

  -- `isLocalDomain`
  unfoldable pub is_local_domain : List Text → Text → Bool
  is_local_domain domains domain = any (λ d. equal_fold u (trim_space d) domain) domains

-- The tables that a session reads: the users, and whether a query on them fails.
pub record Directory : Type 0 where
  pub users : List User
  pub fails : Bool

module _ (u : Unicode) (md5_hex sql_lower : Text → Text) (domains : List Text) where
  -- The query of `AuthPlain`.
  unfoldable pub find_login : Directory → Text → Text → Option User
  find_login dir account encoded =
      if dir.fails
      then none
      else first (
          select (λ r. text_eq r.account account && text_eq r.password encoded && not r.disabled)
            dir.users)

  -- `AuthPlain` behind its query
  unfoldable pub log_in : Text → Option User → Session → Session × Reply
  log_in username none s = (s, password_error)
  log_in username (some r) s =
      if ltb 0 r.id
      then (
        record s {
          user = username;
          user_account = r.account;
          user_id = r.id;
          is_admin = r.is_admin;
        },
        ok,
      )
      else (s, password_error)

  -- `AuthPlain`
  unfoldable pub auth_plain : Directory → Text → Text → Session → Session × Reply
  unfolding log_in
  auth_plain dir username pwd s =
      log_in username (find_login dir (login_account username) (encode_password md5_hex pwd)) s

  -- `Mail`
  unfoldable pub mail : Text → Session → Session × Reply
  mail from s = (record s { from = from }, ok)

  -- The query of `Rcpt`: an enabled account of that name, in lower case.
  unfoldable pub find_recipient : Directory → Text → Option User
  find_recipient dir account =
      first (
        select (λ r. text_eq (sql_lower r.account) (to_lower u account) && not r.disabled)
          dir.users)

  unfoldable pub is_known : Directory → Text → Bool
  unfolding find_recipient
  is_known dir account = elim (find_recipient dir account) [ none ↦ false | some r ↦ ltb 0 r.id ]

  -- `Rcpt` on a well-formed address
  unfoldable pub rcpt_split : Directory → Text → Text × Text → Session → Session × Reply
  rcpt_split dir to (account, domain) s =
      let local = is_local_domain u domains domain in
      if s.user_id == 0 && not local
      then (s, relay_denied)
      else if local && dir.fails
      then (s, lookup_failed)
      else if local && not (is_known dir account)
      then (s, user_unknown)
      else (record s { to = s.to ++ to ∷ [] }, ok)

  -- `Rcpt`
  unfoldable pub rcpt : Directory → Text → Session → Session × Reply
  rcpt dir to s = elim (split_smtp_address u to) [
    | none ↦ (s, invalid_recipient)
    | some parts ↦ rcpt_split dir to parts s
  ]

  -- `Reset`
  unfoldable pub reset : Session → Session
  reset s = record s { from = []; to = [] }
