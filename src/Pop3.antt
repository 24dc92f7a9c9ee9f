-- ===== src/Pop3.antt =====
-- listen/pop3_server/action.go: a session of the POP3 server. The package gopop, which calls these
-- functions, is not part of the repository; `md5_hex` hashes the passwords.
pub mod LoggedIn
pub mod Heading
pub mod Maildrop
pub mod Totals
use pmail.Base.{
  ℕ, zero, suc, ◌+◌, ◌-◌, Bool, true, false, not, ◌&&◌, Option, none, some, List, [], ◌∷◌, ◌++◌,
  ltb, leb, ◌==◌, if◌then◌else◌, length, is_empty, any, select, Text, text_eq, split,
}
use pmail.Detail.{email_detail}
use pmail.Removal.{Faults, del_email}
use pmail.Smtp.Audit.{Email, Store}
use pmail.Smtp.Session.{encode_password, login_account}
use pmail.Tables.{User, first}

-- `gopop.Session` with its context
pub record Session : Type 0 where
  pub user : Text
  pub transaction : Bool
  pub user_id : ℕ
  pub is_admin : Bool
  pub delete_ids : List ℕ

abbrev pub new_session : Session
new_session = record {
  user = [];
  transaction = false;
  user_id = 0;
  is_admin = false;
  delete_ids = [];
}

-- `User`
unfoldable pub user : Text → Session → Session
user username s = record s { user = login_account username }

-- What `Pass` and `Apop` do with the row found: a context gets the user's id, never `IsAdmin`.
unfoldable pub log_in : Option User → Session → Bool × Session
log_in none s = (false, s)
log_in (some r) s =
    if ltb 0 r.id then (true, record s { transaction = true; user_id = r.id }) else (false, s)

-- The conditions of the two queries.
abbrev pub has_password : Text → Text → User → Bool
has_password account encoded r =
    text_eq r.account account && (text_eq r.password encoded && not r.disabled)

abbrev pub has_account : Text → User → Bool
has_account account r = text_eq r.account account && not r.disabled

module _ (md5_hex : Text → Text) where
  -- `Pass`
  unfoldable pub pass : List User → Text → Session → Bool × Session
  unfolding log_in encode_password
  pass users pwd s =
      log_in (first (select (has_password s.user (encode_password md5_hex pwd)) users)) s

  -- `Apop` behind its query; the digest is of the stored password alone.
  unfoldable pub apop_found : Option User → Text → Text → Session → Bool × Session
  apop_found none account digest s = (false, s)
  apop_found (some r) account digest s =
      if ltb 0 r.id && text_eq digest (md5_hex r.password)
      then (true, record s { user = account; transaction = true; user_id = r.id })
      else (false, s)

  -- `Apop`
  unfoldable pub apop : List User → Text → Text → Session → Bool × Session
  unfolding apop_found login_account
  apop users username digest s =
      let account = login_account username in
      apop_found (first (select (has_account account) users)) account digest s

-- The keys of the map that `array.Unique` ranges over, in the order `range_order` makes of them.
unfoldable unique : List ℕ → List ℕ
unique [] = []
unique (x ∷ xs) = let rest = unique xs in if any (λ y. y == x) rest then rest else x ∷ rest

-- `Delete`
unfoldable pub delete : (List ℕ → List ℕ) → ℕ → Session → Session
unfolding unique
delete range_order id s = record s { delete_ids = range_order (unique (s.delete_ids ++ id ∷ [])) }

-- `Rest`
unfoldable pub rest : Session → Session
rest s = record s { delete_ids = [] }

-- `Quit`, which drops the error of the deletion
unfoldable pub quit : Faults → Session → Store → Store
quit f s t = if is_empty s.delete_ids then t else (del_email f s.user_id s.delete_ids false t).1

-- `Retr`, as far as the mail that it prints; `cast.ToInt` leaves an id as it is.
unfoldable pub retr : Bool → Session → ℕ → Store → Option Email
unfolding email_detail
retr select_fails s id t = (email_detail select_fails false s.is_admin s.user_id id false t).0

-- `array.Join`
unfoldable pub join : ℕ → List Text → Text
join sep [] = []
join sep (x ∷ []) = x
join sep (x ∷ y ∷ ys) = x ++ sep ∷ join sep (y ∷ ys)

-- The index of the first line that is a lone carriage return, or none.
unfoldable pub blank_line : List Text → Option ℕ
blank_line [] = none
blank_line (x ∷ xs) =
    let later = blank_line xs in
    if text_eq x (13 ∷ []) then some 0 else elim later [ none ↦ none | some i ↦ some (i + 1) ]

abbrev pub header_end : List Text → ℕ
header_end lines = elim (blank_line lines) [ none ↦ length lines - 1 | some i ↦ i ]

-- `res[0:n]`
unfoldable pub take_lines : ℕ → List Text → List Text
take_lines zero xs = []
take_lines (suc n) [] = []
take_lines (suc n) (x ∷ xs) = x ∷ take_lines n xs

-- `Top` on the text of a mail. `strings.Split` gives at least one line.
unfoldable pub top : Text → ℕ → Text
unfolding blank_line take_lines join
top text n =
    let lines = split b'\n' text in
    let last = header_end lines in
    if leb (length lines) (last + n + 1) then text else join b'\n' (take_lines (last + n + 1) lines)
