-- ===== src/Sending/Tencent/Keys.antt =====
-- tencent_ses.go: the keys by which the users of a mail are compared, without case and outer spaces.
use pmail.Base.{
  ◌≡◌, refl, sym, ap, ◌∙◌, ◌⊎◌, inl, inr, Bool, true, false, List, [], ◌∷◌, ◌++◌, map,
  if◌then◌else◌, Bool-cases, is_empty, In, In-append_left, In-append_right, In-append, Text,
  trim_space, Unicode, to_lower,
}
use mathlib.Core.Path.{subst}
use pmail.Parsemail.{MailUser}
use pmail.Sending.Tencent.{email_addresses, key_of}

-- An address with nothing but spaces.
unfoldable pub is_blank : MailUser → Bool
is_blank r = is_empty (trim_space r.email_address)

pub email_addresses-append :
    (rs ts : List MailUser) → email_addresses (rs ++ ts) ≡ email_addresses rs ++ email_addresses ts
unfolding email_addresses
email_addresses-append [] ts = refl
email_addresses-append (r ∷ rs) ts = elim (Bool-cases (is_empty (trim_space r.email_address))) [
  | inl e ↦ rw e (email_addresses-append rs ts)
  | inr e ↦ rw e (ap (λ l. trim_space r.email_address ∷ l) (email_addresses-append rs ts))
]

module _ (u : Unicode) where
  -- The keys of the users whose address is not blank.
  unfoldable pub keys : List MailUser → List Text
  unfolding key_of
  keys [] = []
  keys (r ∷ rs) =
      let rest = keys rs in
      if is_empty (trim_space r.email_address) then rest else key_of u r ∷ rest

  pub lower-email_addresses : (rs : List MailUser) → map (to_lower u) (email_addresses rs) ≡ keys rs
  unfolding email_addresses keys key_of
  lower-email_addresses [] = refl
  lower-email_addresses (r ∷ rs) = elim (Bool-cases (is_empty (trim_space r.email_address))) [
    | inl e ↦ rw e (lower-email_addresses rs)
    | inr e ↦ rw e (ap (λ l. key_of u r ∷ l) (lower-email_addresses rs))
  ]

  keys-append : (rs ts : List MailUser) → keys (rs ++ ts) ≡ keys rs ++ keys ts
  unfolding keys
  keys-append [] ts = refl
  keys-append (r ∷ rs) ts = elim (Bool-cases (is_empty (trim_space r.email_address))) [
    | inl e ↦ rw e (keys-append rs ts)
    | inr e ↦ rw e (ap (λ l. key_of u r ∷ l) (keys-append rs ts))
  ]

  -- A key that is not empty and that of some user is among the keys.
  is_empty-to_lower : (s : Text) → is_empty (to_lower u s) ≡ is_empty s
  unfolding to_lower
  is_empty-to_lower [] = refl
  is_empty-to_lower (c ∷ cs) = refl

  pub keys-In :
      (k : Text) (rs : List MailUser)
      → is_empty k ≡ false
      → In k (map (key_of u) rs)
      → In k (keys rs)
  unfolding keys key_of
  keys-In k [] h i = absurd i
  keys-In k (r ∷ rs) h (inl e) =
      let full : is_empty (trim_space r.email_address) ≡ false =
        sym (is_empty-to_lower (trim_space r.email_address)) ∙ ap is_empty (sym e) ∙ h in
      rw full (inl e)
  keys-In k (r ∷ rs) h (inr i) = elim (Bool-cases (is_empty (trim_space r.email_address))) [
    | inl e ↦ rw e (keys-In k rs h i)
    | inr e ↦ rw e (inr (keys-In k rs h i))
  ]

  pub keys_blank : (r : MailUser) (rs : List MailUser) → is_blank r ≡ true → keys (r ∷ rs) ≡ keys rs
  unfolding keys is_blank
  keys_blank r rs e = rw e refl

  pub keys_full :
      (r : MailUser) (rs : List MailUser)
      → is_blank r ≡ false
      → keys (r ∷ rs) ≡ key_of u r ∷ keys rs
  unfolding keys is_blank
  keys_full r rs e = rw e refl

  pub keys-full : (k : Text) (rs : List MailUser) → In k (keys rs) → is_empty k ≡ false
  unfolding keys is_blank
  keys-full k [] i = absurd i
  keys-full k (r ∷ rs) i = elim (Bool-cases (is_blank r)) [
    | inl e ↦ keys-full k rs (subst (In k) (keys_blank r rs e) i)
    | inr e ↦ elim (subst (In k) (keys_full r rs e) i) [
      | inl same ↦ ap is_empty same ∙ is_empty-to_lower (trim_space r.email_address) ∙ e
      | inr later ↦ keys-full k rs later
    ]
  ]

  -- The key of a recipient of the header or of the envelope, of one list or the other.
  pub split_keys :
      (k : Text) (shown more : List MailUser)
      → In k (keys (shown ++ more))
      → In k (keys shown) ⊎ In k (keys more)
  split_keys k shown more i =
      In-append k (keys shown) (keys more) (subst (In k) (keys-append shown more) i)

  pub join_keys :
      (k : Text) (shown more : List MailUser)
      → In k (keys shown) ⊎ In k (keys more)
      → In k (keys (shown ++ more))
  join_keys k shown more (inl i) =
      subst (In k) (sym (keys-append shown more)) (In-append_left k (keys shown) (keys more) i)
  join_keys k shown more (inr i) =
      subst (In k) (sym (keys-append shown more)) (In-append_right k (keys shown) (keys more) i)
