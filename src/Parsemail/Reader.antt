-- ===== src/Parsemail/Reader.antt =====
-- dto/parsemail/email.go: `NewEmailFromReader`. What github.com/emersion/go-message reads of the raw
-- mail is the record `Message`: the header fields, and the bodies that `formatContent` gathers.
use pmail.Base.{
  ℕ, ◌≡◌, refl, sym, ap, ◌∙◌, ◌⊎◌, inl, inr, Bool, true, false, Option, none, some, List, [], ◌∷◌,
  ◌++◌, ◌==◌, if◌then◌else◌, Bool-cases, is_empty, any, In, In-append_left, In-append_right, Text,
  text_eq, trim_space, split,
}
use mathlib.Core.Path.{subst}
use pmail.Parsemail.{MailUser, MailLib, build_user}

-- The header fields, empty where one is missing, and the text and the HTML of the body.
pub record Message : Type 0 where
  pub message_id : Text
  pub from_line : Text
  pub sender_line : Text
  pub to_lines : List Text
  pub cc_lines : List Text
  pub reply_to_lines : List Text
  pub subject : Text
  pub text : Text
  pub html : Text

-- The fields of `Email` that the handlers read; a nil pointer is `none`. The authentication is the
-- result of SPF and that of DKIM.
pub record Letter : Type 0 where
  pub reply_to : List MailUser
  pub sent_from : Option MailUser
  pub to : List MailUser
  pub bcc : List MailUser
  pub cc : List MailUser
  pub subject : Text
  pub text : Text
  pub html : Text
  pub sender : Option MailUser
  pub msg_id : Text
  pub size : ℕ
  pub status : ℕ
  pub authentication : Option (Bool × Bool)

-- `strings.TrimPrefix(s, "<")` and `strings.TrimSuffix(s, ">")`
unfoldable pub trim_prefix : ℕ → Text → Text
trim_prefix p [] = []
trim_prefix p (c ∷ cs) = if c == p then cs else c ∷ cs

unfoldable pub trim_suffix : ℕ → Text → Text
trim_suffix p [] = []
trim_suffix p (c ∷ []) = if c == p then [] else c ∷ []
trim_suffix p (c ∷ d ∷ ds) = c ∷ trim_suffix p (d ∷ ds)

-- `ret.MsgID`
unfoldable pub msg_id_of : Text → Text
unfolding trim_prefix trim_suffix
msg_id_of s = if is_empty s then [] else trim_prefix b'<' (trim_suffix b'>' (trim_space s))

-- The inner loop: whether some user has the address.
abbrev pub has_address : List MailUser → Text → Bool
has_address users a = any (λ r. text_eq r.email_address a) users

-- The loop that fills `ret.Bcc`.
unfoldable pub unseen : List MailUser → List MailUser → List MailUser
unseen to [] = []
unseen to (r ∷ rs) =
    let rest = unseen to rs in if has_address to r.email_address then rest else r ∷ rest

module _ (lib : MailLib) where
  -- One line of `buildUsers`, at its commas.
  unfoldable pub build_parts : List Text → List MailUser
  build_parts [] = []
  build_parts (p ∷ ps) = build_user lib (trim_space p) ∷ build_parts ps

  -- `buildUsers`
  unfoldable pub build_users : List Text → List MailUser
  unfolding build_parts
  build_users [] = []
  build_users (line ∷ lines) =
      let rest = build_users lines in
      if is_empty (trim_space line) then rest else build_parts (split b',' line) ++ rest

  -- The sanitising at the end of `NewEmailFromReader`.
  unfoldable pub sanitize_user : MailUser → MailUser
  sanitize_user r = record {
    email_address = lib.sanitize r.email_address;
    name = lib.sanitize r.name;
  }

  -- `NewEmailFromReader`. `buildUser` gives no nil pointer, so a mail without the field Sender does not
  -- take its sender from the field From.
  unfoldable pub new_email_from_reader : List Text → Message → ℕ → Letter
  unfolding build_users unseen msg_id_of sanitize_user
  new_email_from_reader to m size = record {
    reply_to = build_users m.reply_to_lines;
    sent_from = some (sanitize_user (build_user lib m.from_line));
    to = build_users m.to_lines;
    bcc = unseen (build_users m.to_lines) (build_users to);
    cc = build_users m.cc_lines;
    subject = lib.sanitize m.subject;
    text = m.text;
    html = m.html;
    sender = some (build_user lib m.sender_line);
    msg_id = msg_id_of m.message_id;
    size = size;
    status = 0;
    authentication = none;
  }

unseen-In :
    (to rs : List MailUser) (r : MailUser)
    → In r rs
    → (has_address to r.email_address ≡ true) ⊎ In r (unseen to rs)
unfolding unseen
unseen-In to [] r i = absurd i
unseen-In to (x ∷ rs) r (inl e) = elim (Bool-cases (has_address to x.email_address)) [
  | inl shown ↦ inl (ap (λ y. has_address to y.email_address) e ∙ shown)
  | inr new ↦ inr (rw new (inl e))
]
unseen-In to (x ∷ rs) r (inr i) = go (has_address to x.email_address) (unseen-In to rs r i)
  where
    go :
        (b : Bool)
        → (has_address to r.email_address ≡ true) ⊎ In r (unseen to rs)
        → (has_address to r.email_address ≡ true)
          ⊎ In r (if b then unseen to rs else x ∷ unseen to rs)
    go b (inl shown) = inl shown
    go true (inr j) = inr j
    go false (inr j) = inr (inr j)

build_parts-In :
    (lib : MailLib) (p : Text) (ps : List Text)
    → In p ps
    → In (build_user lib (trim_space p)) (build_parts lib ps)
unfolding build_parts
build_parts-In lib p [] i = absurd i
build_parts-In lib p (q ∷ ps) (inl e) = inl (ap (λ t. build_user lib (trim_space t)) e)
build_parts-In lib p (q ∷ ps) (inr i) = inr (build_parts-In lib p ps i)

build_users-In :
    (lib : MailLib) (line p : Text) (lines : List Text)
    → In line lines
    → is_empty (trim_space line) ≡ false
    → In p (split b',' line)
    → In (build_user lib (trim_space p)) (build_users lib lines)
unfolding build_users
build_users-In lib line p [] i full j = absurd i
build_users-In lib line p (l ∷ lines) (inl e) full j =
    rw (ap (λ t. is_empty (trim_space t)) (sym e) ∙ full) (
      In-append_left _ _ _
        (build_parts-In lib p (split b',' l) (subst (λ t. In p (split b',' t)) e j)))
build_users-In lib line p (l ∷ lines) (inr i) full j =
    let later = build_users-In lib line p lines i full j in
    elim (Bool-cases (is_empty (trim_space l))) [
      | inl blank ↦ rw blank later
      | inr text ↦ rw text (In-append_right _ _ _ later)
    ]

-- Whatever the header says: for each recipient line of the session that is not blank, the user of every
-- part of it between commas is one of the users of the field To, by its address, or one of the
-- hidden users; so no recipient of the envelope is lost.
pub new_email_from_reader-keeps :
    (lib : MailLib) (to : List Text) (m : Message) (size : ℕ) (line part : Text)
    → In line to
    → is_empty (trim_space line) ≡ false
    → In part (split b',' line)
    → let e = new_email_from_reader lib to m size in
      let r = build_user lib (trim_space part) in
      (has_address e.to r.email_address ≡ true) ⊎ In r e.bcc
unfolding new_email_from_reader
new_email_from_reader-keeps lib to m size line part i full j =
    unseen-In (build_users lib m.to_lines) (build_users lib to) (build_user lib (trim_space part))
      (build_users-In lib line part to i full j)

-- A mail without the field Sender has an empty sender, whoever its field From names.
pub new_email_from_reader_no_sender :
    (lib : MailLib) (to : List Text) (m : Message) (size : ℕ)
    → is_empty (trim_space m.sender_line) ≡ true
    → (new_email_from_reader lib to m size).sender ≡ some (record { email_address = []; name = [] })
unfolding new_email_from_reader
new_email_from_reader_no_sender lib to m size h = ap some (build_user_blank m.sender_line h)
  where
    build_user_blank :
        (s : Text)
        → is_empty (trim_space s) ≡ true
        → build_user lib s ≡ record { email_address = []; name = [] }
    build_user_blank s h = unfold build_user in rw h refl
