-- ===== src/Web/Access.antt =====
-- listen/http_server/https_server.go: `contextIterceptor`, which stands before every handler of the web
-- API, and `getLoginInfoByToken`. The session holds the user as it was at the login.
pub mod Token
pub mod Known
use pmail.Base.{
  ℕ, ◌+◌, ◌-◌, ◌%◌, ◌^◌, Bool, false, not, ◌&&◌, ◌||◌, Option, none, some, List, [], ◌∷◌, ◌++◌, ltb,
  leb, ◌==◌, if◌then◌else◌, is_empty, select, Text, codes, text_eq, split,
}
use pmail.Base.Int.{ℤ, pos, negsuc}
use pmail.Tables.{User, first}
use pmail.Web.Compose.{Login}

-- What the request brings: the user of its session, its token if there is one, and its path.
pub record Request : Type 0 where
  pub session_user : Option User
  pub token : Text
  pub path : Text

pub data TokenError : Type 0 where
  bad_format expired bad_account : TokenError

pub data Access : Type 0 where
  allowed : Login → Access
  need_login : Option TokenError → Access
  need_setup : Access

abbrev pub nobody : Login
nobody = record { user_id = 0; account = []; name = []; is_admin = false }

abbrev pub login_of : User → Login
login_of r = record { user_id = r.id; account = r.account; name = r.name; is_admin = r.is_admin }

-- `password.Md5Encode`, `cast.ToInt64`, `%d`, and the seconds of the clock.
pub record Clock : Type 0 where
  pub md5_hex : Text → Text
  pub to_seconds : Text → ℤ
  pub decimal : ℤ → Text
  pub now : ℕ

-- An int64 as a word, and the word of `now - time`.
abbrev pub word : ℤ → ℕ
word (pos n) = n % 2 ^ 64
word (negsuc n) = 2 ^ 64 - 1 - n % 2 ^ 64

abbrev pub age : ℕ → ℤ → ℕ
age now time = (now + (2 ^ 64 - word time)) % 2 ^ 64

-- The difference as an int64 is 5 or more: a word from 2 ^ 63 on stands for a negative number.
abbrev pub is_expired : ℕ → ℤ → Bool
is_expired now time = leb 5 (age now time) && ltb (age now time) (2 ^ 63)

pub data Found : Type 0 where
  found : User → Found
  rejected : TokenError → Found

module _ (k : Clock) where
  -- The test of the digest, over the stored password and the time.
  unfoldable pub check_digest : Text → ℤ → Option User → Found
  check_digest digest time none = rejected bad_account
  check_digest digest time (some r) =
      if r.id == 0
      then rejected bad_account
      else if text_eq (k.md5_hex (r.password ++ k.decimal time)) digest
      then found r
      else rejected bad_account

  -- The three parts of the token: an account, a digest and a time, whose age wraps at 64 bits.
  unfoldable pub check_token : List User → List Text → Found
  unfolding check_digest
  check_token users (account ∷ digest ∷ time ∷ []) =
      if is_expired k.now (k.to_seconds time)
      then rejected expired
      else check_digest digest (k.to_seconds time)
          (first (select (λ r. text_eq r.account account && not r.disabled) users))
  check_token users _ = rejected bad_format

  -- `getLoginInfoByToken`
  unfoldable pub get_login_info_by_token : List User → Text → Found
  unfolding check_token
  get_login_info_by_token users token = check_token users (split b':' token)

  -- The last test: without a user only two paths are served.
  unfoldable pub admit : Login → Text → Access
  admit c path =
      if c.user_id == 0
      then if text_eq path (codes "/api/ping") || text_eq path (codes "/api/login")
        then allowed c
        else need_login none
      else allowed c

  unfoldable pub by_token : Text → Found → Access
  unfolding admit
  by_token path (found r) = admit (login_of r) path
  by_token path (rejected why) = need_login (some why)

  -- The user of the session, which has to have an id.
  unfoldable pub by_session : List User → Request → Option User → Access
  unfolding admit by_token get_login_info_by_token
  by_session users q none =
      if is_empty q.token
      then admit nobody q.path
      else by_token q.path (get_login_info_by_token users q.token)
  by_session users q (some r) =
      if ltb 0 r.id
      then admit (login_of r) q.path
      else if is_empty q.token
      then admit nobody q.path
      else by_token q.path (get_login_info_by_token users q.token)

  -- `contextIterceptor`, up to the call of the handler
  unfoldable pub context_interceptor : Bool → List User → Request → Access
  unfolding by_session
  context_interceptor is_init users q =
      if is_init
      then by_session users q q.session_user
      else if text_eq q.path (codes "/api/setup")
      then allowed nobody
      else need_setup
