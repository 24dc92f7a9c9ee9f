-- ===== src/Web/Compose/Own.antt =====
-- controllers/email/send.go: whose address `Send` lets a user write from.
use pmail.Base.{
  ◌≡◌, refl, sym, ap, ◌⊎◌, inl, inr, Bool, true, false, ◌||◌, Option, none, some, List, [], ◌∷◌,
  ◌++◌, arith, if◌then◌else◌, and_true, is_empty, any, Text, codes, text_eq, text_eq_iff, split,
}
use mathlib.Core.Path.{subst}
use pmail.Parsemail.{MailUser}
use pmail.Web.Compose.{
  Login, SendRequest, Draft, Composed, refused, composed, Decoded, decoded, undecodable,
  out_of_range, is_allowed, choose_from, with_attached, decode_all, compose_from, compose, Refusal,
}

-- An address of the server that the user may write from.
abbrev pub IsOwn : List Text → Text → Login → Text → Type 0
IsOwn domains domain c address =
    (address ≡ c.account ++ (codes "@" ++ domain))
    ⊎ ((account : Text) × (d : Text) × (split b'@' address ≡ account ∷ d ∷ [])
        × (any (text_eq d) domains ≡ true)
        × ((c.is_admin ≡ true) ⊎ (account ≡ c.account)))

or_cases : (a b : Bool) → (a || b) ≡ true → (a ≡ true) ⊎ (b ≡ true)
or_cases a b h = ground arith

is_allowed-parts :
    (domains : List Text) (c : Login) (parts : List Text)
    → is_allowed domains c parts ≡ true
    → (account : Text) × (d : Text) × (parts ≡ account ∷ d ∷ [])
      × (any (text_eq d) domains ≡ true)
      × ((c.is_admin ≡ true) ⊎ (account ≡ c.account))
unfolding is_allowed
is_allowed-parts domains c [] h = absurd (cc h)
is_allowed-parts domains c (account ∷ []) h = absurd (cc h)
is_allowed-parts domains c (account ∷ d ∷ e ∷ more) h = absurd (cc h)
is_allowed-parts domains c (account ∷ d ∷ []) h =
    let both = and_true (any (text_eq d) domains) (c.is_admin || text_eq account c.account) h in
    (
      account,
      d,
      refl,
      both.0,
      elim (or_cases c.is_admin (text_eq account c.account) both.1) [
        | inl admin ↦ inl admin
        | inr same ↦ inr ((text_eq_iff account c.account).0 same)
      ],
    )

some-inj : (a b : MailUser) → some a ≡ some b → a ≡ b
some-inj a b h = cc h

composed-inj : (a b : Draft) → composed a ≡ composed b → a ≡ b
composed-inj a b h = cc h

choose_from-IsOwn :
    (domains : List Text) (domain : Text) (c : Login) (r f : MailUser)
    → choose_from domains domain c r ≡ some f
    → IsOwn domains domain c f.email_address
unfolding choose_from
choose_from-IsOwn domains domain c r f h =
    chosen (is_empty r.email_address) (is_allowed domains c (split b'@' r.email_address)) refl h
  where
    name : Text
    name = if is_empty r.name then c.name else r.name

    default : MailUser
    default = record { email_address = c.account ++ (codes "@" ++ domain); name = name }

    given : MailUser
    given = record { email_address = r.email_address; name = name }

    chosen :
        (blank allowed : Bool)
        → is_allowed domains c (split b'@' r.email_address) ≡ allowed
        → (if blank then some default else if allowed then some given else none) ≡ some f
        → IsOwn domains domain c f.email_address
    chosen true allowed same k = inl (ap (λ x. x.email_address) (sym (some-inj default f k)))
    chosen false true same k =
        subst (λ x. IsOwn domains domain c x.email_address) (some-inj given f k)
          (inr (is_allowed-parts domains c (split b'@' r.email_address) same))
    chosen false false same k = absurd (cc k)

module _ (decode_base64 : Text → Option Text) (domains : List Text) (domain : Text)
    (c : Login) where
  -- What a request and the mail composed from it have in common.
  pub record IsDraft (q : SendRequest) (d : Draft) : Type 0 where
    pub own : IsOwn domains domain c d.sent_from.email_address
    pub subject : is_empty d.subject ≡ false
    pub recipient : is_empty d.to ≡ false
    pub to : d.to ≡ q.to
    pub cc : d.cc ≡ q.cc
    pub bcc : d.bcc ≡ q.bcc

  with_attached-IsDraft :
      (q : SendRequest) (f : MailUser) (o : Decoded) (d : Draft)
      → IsOwn domains domain c f.email_address
      → is_empty q.subject ≡ false
      → is_empty q.to ≡ false
      → with_attached decode_base64 q f o ≡ composed d
      → IsDraft q d
  with_attached-IsDraft q f (decoded attachments) d own subject to h =
      subst (IsDraft q) (composed-inj _ d h)
        (record { own = own; subject = subject; recipient = to; to = refl; cc = refl; bcc = refl })
  with_attached-IsDraft q f undecodable d own subject to h = absurd (cc h)
  with_attached-IsDraft q f out_of_range d own subject to h = absurd (cc h)

  gate :
      (b : Bool) (why : Refusal) (x : Composed) (d : Draft)
      → (if b then refused why else x) ≡ composed d
      → (b ≡ false) × (x ≡ composed d)
  gate true why x d h = absurd (cc h)
  gate false why x d h = (refl, h)

  compose_from-IsDraft :
      (q : SendRequest) (o : Option MailUser) (d : Draft)
      → ((f : MailUser) → o ≡ some f → IsOwn domains domain c f.email_address)
      → compose_from decode_base64 q o ≡ composed d
      → IsDraft q d
  unfolding compose_from
  compose_from-IsDraft q none d own h = absurd (cc h)
  compose_from-IsDraft q (some f) d own h =
      let titled = gate _ _ _ d h in
      let addressed = gate _ _ _ d titled.1 in
      with_attached-IsDraft q f (decode_all decode_base64 q.attachments) d (own f refl) titled.0
        addressed.0 addressed.1

  -- A mail of the web API is composed only from an address of the user: the default one, or one with
  -- exactly one "@", a domain of the server behind it, and the user's account before it unless the user is
  -- an administrator; and it has a subject, a recipient, and the recipients of the request.
  pub compose-IsDraft :
      (q : SendRequest) (d : Draft)
      → compose decode_base64 domains domain c q ≡ composed d
      → IsDraft q d
  unfolding compose
  compose-IsDraft q d h =
      compose_from-IsDraft q (choose_from domains domain c q.sent_from) d
        (choose_from-IsOwn domains domain c q.sent_from) h
