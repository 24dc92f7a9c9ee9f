-- ===== src/Web/Access/Known.antt =====
-- listen/http_server/https_server.go: for whom a handler of the web API runs.
use pmail.Base.{
  ◌^◌, ◌<◌, ◌≡◌, refl, sym, ◌≢◌, ◌⊎◌, inl, inr, Bool, true, false, ◌||◌, Option, none, some, List,
  arith, ltb, ◌==◌, if◌then◌else◌, ltb→lt, is_empty, Text, codes, text_eq, text_eq_iff, split,
}
use pmail.Tables.{User}
use pmail.Web.Access.{
  Request, allowed, need_login, nobody, login_of, Clock, Found, found, rejected,
  get_login_info_by_token, admit, by_token, by_session, context_interceptor,
}
use pmail.Web.Access.Token.{IsInt64, IsToken, check_token-found}
use pmail.Web.Compose.{Login}

allowed-inj : (c c' : Login) → allowed c ≡ allowed c' → c ≡ c'
allowed-inj c c' h = cc h

-- The two paths that are served without a user.
abbrev pub IsOpen : Text → Type 0
IsOpen path = (path ≡ codes "/api/ping") ⊎ (path ≡ codes "/api/login")

or_cases : (a b : Bool) → (a || b) ≡ true → (a ≡ true) ⊎ (b ≡ true)
or_cases a b h = ground arith

admit-allowed :
    (k : Clock) (c c' : Login) (path : Text)
    → admit k c path ≡ allowed c'
    → (c ≡ c') × ((c.user_id ≢ 0) ⊎ IsOpen path)
unfolding admit
admit-allowed k c c' path h =
    go (c.user_id == 0) (text_eq path (codes "/api/ping") || text_eq path (codes "/api/login")) refl
      refl h
  where
    go :
        (b o : Bool)
        → (c.user_id == 0) ≡ b
        → (text_eq path (codes "/api/ping") || text_eq path (codes "/api/login")) ≡ o
        → (if b then if o then allowed c else need_login none else allowed c) ≡ allowed c'
        → (c ≡ c') × ((c.user_id ≢ 0) ⊎ IsOpen path)
    go false o known path_known h = (allowed-inj c c' h, inl (λ e. absurd (ground arith)))
    go true true unknown served h = (
      allowed-inj c c' h,
      inr (elim (or_cases _ _ served) [
        | inl e ↦ inl ((text_eq_iff path (codes "/api/ping")).0 e)
        | inr e ↦ inr ((text_eq_iff path (codes "/api/login")).0 e)
      ]),
    )
    go true false unknown shut h = absurd (cc h)

module _ (k : Clock) (users : List User) where
  -- The user of the session.
  abbrev pub OfSession : Request → Login → Type 0
  OfSession q c = (r : User) × (q.session_user ≡ some r) × (0 < r.id) × (c ≡ login_of r)

  -- The user of the token.
  abbrev pub OfToken : Request → Login → Type 0
  OfToken q c = (r : User) × IsToken k users q.token r × (c ≡ login_of r)

module _ (k : Clock) (users : List User) (now_small : k.now < 2 ^ 63)
    (small : (s : Text) → IsInt64 (k.to_seconds s)) where
  by_token-OfToken :
      (q : Request) (c : Login) (o : Found)
      → get_login_info_by_token k users q.token ≡ o
      → by_token k q.path o ≡ allowed c
      → OfToken k users q c
  unfolding by_token get_login_info_by_token
  by_token-OfToken q c (rejected why) same h = absurd (cc h)
  by_token-OfToken q c (found r) same h = (
    r,
    check_token-found k users (split b':' q.token) r now_small small same,
    sym (admit-allowed k (login_of r) c q.path h).0,
  )

  no_session :
      (q : Request) (c : Login) (b : Bool)
      → (if b
          then admit k nobody q.path
          else by_token k q.path (get_login_info_by_token k users q.token))
        ≡ allowed c
      → OfToken k users q c ⊎ ((c ≡ nobody) × IsOpen q.path)
  no_session q c false h = inl (by_token-OfToken q c _ refl h)
  no_session q c true h =
      let served = admit-allowed k nobody c q.path h in
      inr (sym served.0, elim served.1 [ inl known ↦ absurd (known refl) | inr path ↦ path ])

  by_session-known :
      (q : Request) (c : Login) (o : Option User)
      → q.session_user ≡ o
      → by_session k users q o ≡ allowed c
      → OfSession k users q c ⊎ (OfToken k users q c ⊎ ((c ≡ nobody) × IsOpen q.path))
  unfolding by_session
  by_session-known q c none same h = inr (no_session q c (is_empty q.token) h)
  by_session-known q c (some r) same h = go (ltb 0 r.id) refl h
    where
      go :
          (b : Bool)
          → ltb 0 r.id ≡ b
          → (if b
              then admit k (login_of r) q.path
              else if is_empty q.token
              then admit k nobody q.path
              else by_token k q.path (get_login_info_by_token k users q.token))
            ≡ allowed c
          → OfSession k users q c ⊎ (OfToken k users q c ⊎ ((c ≡ nobody) × IsOpen q.path))
      go true e h = inl (r, same, ltb→lt 0 r.id e, sym (admit-allowed k (login_of r) c q.path h).0)
      go false e h = inr (no_session q c (is_empty q.token) h)

  -- If the clock and the times of tokens are numbers of an int64, the clock's not negative: a handler of
  -- the web API of a server that is set up runs only for the user of the session, as the session holds
  -- it; or for the user of a token that names an enabled account of the table, with the digest of its
  -- password and of a time that is less than five seconds past or at least 2 ^ 63 seconds past; or for
  -- nobody, on the paths of ping and login.
  pub context_interceptor-known :
      (q : Request) (c : Login)
      → context_interceptor k true users q ≡ allowed c
      → OfSession k users q c ⊎ (OfToken k users q c ⊎ ((c ≡ nobody) × IsOpen q.path))
  unfolding context_interceptor
  context_interceptor-known q c h = by_session-known q c q.session_user refl h
