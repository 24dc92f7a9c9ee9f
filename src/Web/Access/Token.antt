-- ===== src/Web/Access/Token.antt =====
-- listen/http_server/https_server.go: which tokens `getLoginInfoByToken` takes.
use pmail.Base.{
  ℕ, ◌+◌, ◌^◌, ◌≤◌, ◌<◌, ◌≡◌, refl, sym, ap, ◌⊎◌, inl, inr, Bool, true, false, not, ◌&&◌, Option,
  none, some, List, [], ◌∷◌, ◌++◌, arith, ltb, leb, ◌==◌, if◌then◌else◌, Bool-cases, select, In,
  Text, text_eq, text_eq_iff, split,
}
use mathlib.Core.Path.{subst}
use pmail.Base.Int.{ℤ, pos, negsuc, pos_part, neg_part}
use pmail.Tables.{User, first}
use pmail.Web.Access.{
  is_expired, age, bad_account, Clock, Found, found, rejected, expired, check_digest, check_token,
}

-- A number that an int64 can hold.
abbrev pub IsInt64 : ℤ → Type 0
IsInt64 t = (pos_part t < 2 ^ 63) × (neg_part t ≤ 2 ^ 63)

-- The time is less than five seconds past, or so far in the past that its age is no int64.
abbrev pub IsFresh : ℕ → ℤ → Type 0
IsFresh now t = (now + neg_part t < pos_part t + 5) ⊎ (pos_part t + 2 ^ 63 ≤ now + neg_part t)

-- A token that the server takes for this user.
abbrev pub IsToken : Clock → List User → Text → User → Type 0
IsToken k users token r =
    (account : Text) × (digest : Text) × (time : Text) × (split b':' token
      ≡ account ∷ digest ∷ time ∷ [])
    × IsFresh k.now (k.to_seconds time)
    × In r users
    × (r.account ≡ account)
    × (r.disabled ≡ false)
    × (k.md5_hex (r.password ++ k.decimal (k.to_seconds time)) ≡ digest)

found-inj : (r r' : User) → found r ≡ found r' → r ≡ r'
found-inj r r' h = cc h

module _ (k : Clock) (users : List User) where
  first-In :
      (p : User → Bool) (xs : List User) (r : User)
      → first (select p xs) ≡ some r
      → In r xs × (p r ≡ true)
  first-In p [] r h = absurd (cc h)
  first-In p (x ∷ xs) r h = elim (Bool-cases (p x)) [
    | inl e ↦
        let same : x ≡ r =
          some-inj x r
            (subst (λ b. first (if b then x ∷ select p xs else select p xs) ≡ some r) e h) in
        (inl (sym same), subst (λ y. p y ≡ true) same e)
    | inr e ↦
        let later =
          first-In p xs r
            (subst (λ b. first (if b then x ∷ select p xs else select p xs) ≡ some r) e h) in
        (inr later.0, later.1)
  ]
    where
      some-inj : (a b : User) → some a ≡ some b → a ≡ b
      some-inj a b h = cc h

  check_digest-found :
      (digest : Text) (time : ℤ) (o : Option User) (r : User)
      → check_digest k digest time o ≡ found r
      → (o ≡ some r) × (k.md5_hex (r.password ++ k.decimal time) ≡ digest)
  unfolding check_digest
  check_digest-found digest time none r h = absurd (cc h)
  check_digest-found digest time (some x) r h =
      go (x.id == 0) (text_eq (k.md5_hex (x.password ++ k.decimal time)) digest) refl h
    where
      go :
          (zero_id same : Bool)
          → text_eq (k.md5_hex (x.password ++ k.decimal time)) digest ≡ same
          → (if zero_id
              then rejected bad_account
              else if same
              then found x
              else rejected bad_account)
            ≡ found r
          → (some x ≡ some r) × (k.md5_hex (r.password ++ k.decimal time) ≡ digest)
      go true same e h = absurd (cc h)
      go false false e h = absurd (cc h)
      go false true e h =
          let eq = found-inj x r h in
          (
            ap some eq,
            subst (λ y. k.md5_hex (y.password ++ k.decimal time) ≡ digest) eq
                ((text_eq_iff _ digest).0 e),
          )

  late-gate :
      (b : Bool) (x : Found) (r : User)
      → (if b then rejected expired else x) ≡ found r
      → (b ≡ false) × (x ≡ found r)
  late-gate true x r h = absurd (cc h)
  late-gate false x r h = (refl, h)

  split_and : (a b : Bool) → (a && not b) ≡ true → (a ≡ true) × (b ≡ false)
  split_and a b h = ground arith

  not_expired : (a b : ℕ) → (leb 5 a && ltb a b) ≡ false → (a < 5) ⊎ (b ≤ a)
  not_expired a b h = elim (Bool-cases (leb 5 a)) [
    | inl old ↦ inr (ground (arith, h, old))
    | inr new ↦ inl (ground (arith, new))
  ]

  -- The age of an int64, from its two parts.
  age-near : (now : ℕ) (t : ℤ) → now < 2 ^ 63 → IsInt64 t → age now t < 5 → IsFresh now t
  age-near now (pos n) small (up, down) e = inl (omega (arith, small, up, e))
  age-near now (negsuc n) small (up, down) e = inl (omega (arith, small, down, e))

  age-far : (now : ℕ) (t : ℤ) → now < 2 ^ 63 → IsInt64 t → 2 ^ 63 ≤ age now t → IsFresh now t
  age-far now (pos n) small (up, down) e = inl (omega (arith, small, up, e))
  age-far now (negsuc n) small (up, down) e = inr (omega (arith, small, down, e))

  is_expired-IsFresh :
      (now : ℕ) (t : ℤ) → now < 2 ^ 63 → IsInt64 t → is_expired now t ≡ false → IsFresh now t
  is_expired-IsFresh now t small int e = elim (not_expired (age now t) (2 ^ 63) e) [
    | inl near ↦ age-near now t small int near
    | inr far ↦ age-far now t small int far
  ]

  pub check_token-found :
      (parts : List Text) (r : User)
      → k.now < 2 ^ 63
      → ((s : Text) → IsInt64 (k.to_seconds s))
      → check_token k users parts ≡ found r
      → (account : Text) × (digest : Text) × (time : Text) × (parts ≡ account ∷ digest ∷ time ∷ [])
        × IsFresh k.now (k.to_seconds time)
        × In r users
        × (r.account ≡ account)
        × (r.disabled ≡ false)
        × (k.md5_hex (r.password ++ k.decimal (k.to_seconds time)) ≡ digest)
  unfolding check_token
  check_token-found [] r now_small small h = absurd (cc h)
  check_token-found (a ∷ []) r now_small small h = absurd (cc h)
  check_token-found (a ∷ b ∷ []) r now_small small h = absurd (cc h)
  check_token-found (a ∷ b ∷ c ∷ d ∷ more) r now_small small h = absurd (cc h)
  check_token-found (account ∷ digest ∷ time ∷ []) r now_small small h =
      let fresh = late-gate _ _ r h in
      let right = check_digest-found digest (k.to_seconds time) _ r fresh.1 in
      let there = first-In (λ r. text_eq r.account account && not r.disabled) users r right.0 in
      let both = split_and (text_eq r.account account) r.disabled there.1 in
      (
        account,
        digest,
        time,
        refl,
        is_expired-IsFresh k.now (k.to_seconds time) now_small (small time) fresh.0,
        there.0,
        (text_eq_iff r.account account).0 both.0,
        both.1,
        right.1,
      )
