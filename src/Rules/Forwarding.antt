-- ===== src/Rules/Forwarding.antt =====
-- services/rule/rule.go: `doForward` and what it calls. utils/send answers whether it sent the mail.
use pmail.Base.{
  ℕ, ◌≡◌, sym, ap, ◌∙◌, ◌≢◌, ◌⊎◌, inl, inr, Bool, true, false, not, ◌&&◌, ◌||◌, Option, none, some,
  List, [], ◌∷◌, arith, ◌==◌, if◌then◌else◌, Option-cases, is_empty, any, select, any-append, Text,
  text_eq, Unicode, equal_fold,
}
use pmail.Parsemail.{MailLib, get_domain_account, build_user}
use pmail.Rules.{Mail}
use pmail.Smtp.Audit.{Store, insert_relation}
use pmail.Tables.{UserEmail, User, first}

-- The errors of `doForward`.
pub data ForwardError : Type 0 where
  invalid_address self_loop not_saved no_such_user sql_error send_error : ForwardError

-- The two ways in which a mail leaves.
pub data Sending : Type 0 where
  raw remail : Sending

-- Which statements fail, and which of the two sendings work.
pub record ForwardWorld : Type 0 where
  pub users : List User
  pub find_user_fails : Bool
  pub find_relation_fails : Bool
  pub insert_fails : Bool
  pub raw_works : Bool
  pub remail_works : Bool

pub record Forwarded : Type 0 where
  pub error : Option ForwardError
  pub store : Store
  pub sent : List Sending

-- Whether the user holds the mail already.
abbrev pub holds : ℕ → ℕ → List UserEmail → Bool
holds email_id user_id rows = any (λ r. r.email_id == email_id && r.user_id == user_id) rows

module _ (sql_lower : Text → Text) (w : ForwardWorld) where
  -- The query for the user of an account.
  unfoldable pub find_account : Text → Option User
  find_account account =
      first
        (select (λ r. text_eq (sql_lower r.account) (sql_lower account) && not r.disabled) w.users)

  -- The end of `forwardToLocalUser`, for the user found. A status fits into an int8.
  unfoldable pub give_mail : Mail → User → Store → Option ForwardError × Store
  give_mail m r s =
      if w.find_relation_fails
      then (some sql_error, s)
      else if holds m.message_id r.id s.user_emails
      then (none, s)
      else if w.insert_fails
      then (some sql_error, s)
      else (none, insert_relation m.message_id r.id m.status s)

  -- `forwardToLocalUser`
  unfoldable pub forward_to_local_user : Mail → Text → Store → Option ForwardError × Store
  unfolding give_mail
  forward_to_local_user m account s =
      if m.message_id == 0
      then (some not_saved, s)
      else if w.find_user_fails
      then (some sql_error, s)
      else elim (find_account account) [ none ↦ (some no_such_user, s) | some r ↦ give_mail m r s ]

  -- The end of `doForward`: the mail as it came, then the mail written anew.
  unfoldable pub send_out : Text → Store → Forwarded
  send_out raw_data s =
      let outcome : Option ForwardError = if w.remail_works then none else some send_error in
      if is_empty raw_data
      then record { error = outcome; store = s; sent = remail ∷ [] }
      else if w.raw_works
      then record { error = none; store = s; sent = raw ∷ [] }
      else record { error = outcome; store = s; sent = raw ∷ remail ∷ [] }

-- `isLocalDomain`
unfoldable pub is_local_domain : Unicode → List Text → Text → Text → Bool
is_local_domain u domains main_domain domain =
    any (λ d. equal_fold u domain d) domains || equal_fold u domain main_domain

abbrev in_house : Option ForwardError × Store → Forwarded
in_house (e, s) = record { error = e; store = s; sent = [] }

module _ (lib : MailLib) (u : Unicode) (sql_lower : Text → Text) (domains : List Text)
    (main_domain : Text) where
  -- `doForward` on an account and a domain
  unfoldable pub forward_parts : ForwardWorld → Mail → Text × Text → User → Text → Store → Forwarded
  unfolding send_out forward_to_local_user
  forward_parts w m (account, domain) owner raw_data s =
      if is_empty account || is_empty domain
      then record { error = some invalid_address; store = s; sent = [] }
      else if is_local_domain u domains main_domain domain
      then if equal_fold u account owner.account
        then record { error = some self_loop; store = s; sent = [] }
        else in_house (forward_to_local_user sql_lower w m account s)
      else send_out sql_lower w raw_data s

  -- `doForward`
  unfoldable pub do_forward : ForwardWorld → Mail → Text → User → Text → Store → Forwarded
  unfolding forward_parts
  do_forward w m address owner raw_data s =
      let target = build_user lib address in
      if is_empty target.email_address
      then record { error = some invalid_address; store = s; sent = [] }
      else forward_parts w m (get_domain_account target) owner raw_data s

module _ (sql_lower : Text → Text) (m : Mail) (account : Text) where
  insert_relation-holds :
      (email_id user_id status : ℕ) (s : Store)
      → holds email_id user_id (insert_relation email_id user_id status s).user_emails ≡ true
  unfolding insert_relation
  insert_relation-holds email_id user_id status s =
      any-append (λ r. r.email_id == email_id && r.user_id == user_id) s.user_emails _
      ∙ last (any (λ r. r.email_id == email_id && r.user_id == user_id) s.user_emails)
          (email_id == email_id) (user_id == user_id) (ground arith) (ground arith)
    where
      last : (a b c : Bool) → b ≡ true → c ≡ true → (a || ((b && c) || false)) ≡ true
      last a b c h k = ground arith

  give_mail-holds :
      (w : ForwardWorld) (r : User) (s : Store)
      → (give_mail sql_lower w m r s).0 ≡ none
      → holds m.message_id r.id (give_mail sql_lower w m r s).1.user_emails ≡ true
  unfolding give_mail
  give_mail-holds w r s h = ground (arith, insert_relation-holds m.message_id r.id m.status s)

  give_mail-again :
      (w : ForwardWorld) (r : User) (s : Store)
      → holds m.message_id r.id s.user_emails ≡ true
      → (give_mail sql_lower w m r s).1 ≡ s
  unfolding give_mail
  give_mail-again w r s h = ground arith

  forward_to_local_user-found :
      (w : ForwardWorld) (s : Store)
      → (forward_to_local_user sql_lower w m account s).0 ≡ none
      → (r : User) × (find_account sql_lower w account ≡ some r)
        × (forward_to_local_user sql_lower w m account s ≡ give_mail sql_lower w m r s)
  unfolding forward_to_local_user
  forward_to_local_user-found w s ok = elim (Option-cases (find_account sql_lower w account)) [
    | inl e ↦ absurd (ground (arith, e))
    | inr (r, e) ↦ (r, e, ground (arith, e))
  ]

  forward_to_local_user-again :
      (w : ForwardWorld) (r : User) (s : Store)
      → find_account sql_lower w account ≡ some r
      → holds m.message_id r.id s.user_emails ≡ true
      → (forward_to_local_user sql_lower w m account s).1 ≡ s
  unfolding forward_to_local_user
  forward_to_local_user-again w r s e h = rw e (ground (arith, give_mail-again w r s h))

  find_account-users :
      (w w' : ForwardWorld)
      → w'.users ≡ w.users
      → find_account sql_lower w' account ≡ find_account sql_lower w account
  unfolding find_account
  find_account-users w w' same = rw same

  -- A forward to a local user that succeeds leaves the mail with the user that the account names,
  -- and a repetition with the same users, whatever fails in it, gives it no second time.
  pub forward_to_local_user-once :
      (w w' : ForwardWorld) (s : Store)
      → w'.users ≡ w.users
      → (forward_to_local_user sql_lower w m account s).0 ≡ none
      → let s' = (forward_to_local_user sql_lower w m account s).1 in
        ((r : User) × (find_account sql_lower w account ≡ some r)
          × (holds m.message_id r.id s'.user_emails ≡ true))
        × ((forward_to_local_user sql_lower w' m account s').1 ≡ s')
  forward_to_local_user-once w w' s same ok =
      let (r, found, given) = forward_to_local_user-found w s ok in
      let held =
        ap (λ t. holds m.message_id r.id t.1.user_emails) given
        ∙ give_mail-holds w r s (sym (ap (λ t. t.0) given) ∙ ok) in
      (
        (r, found, held),
        forward_to_local_user-again w' r _ (find_account-users w w' same ∙ found) held,
      )

module _ (lib : MailLib) (u : Unicode) (sql_lower : Text → Text) (domains : List Text)
    (main_domain : Text) (w : ForwardWorld) (m : Mail) (address : Text) (owner : User)
    (raw_data : Text) (s : Store) where
  -- Where a rule's forward can go.
  pub record Guarded (r : Forwarded) : Type 0 where
    pub sending :
        (r.sent ≡ [])
        ⊎ ((is_local_domain u domains main_domain (get_domain_account (build_user lib address)).1
              ≡ false)
            × (r.store ≡ s))
    pub giving :
        (r.store ≡ s)
        ⊎ ((is_local_domain u domains main_domain (get_domain_account (build_user lib address)).1
              ≡ true)
            × (equal_fold u (get_domain_account (build_user lib address)).0 owner.account ≡ false)
            × (m.message_id ≢ 0))

  -- A mail is handed to a server only for a domain that is not local, and then the tables stay; the
  -- tables change only for an account of a local domain that is not the rule's own user, and only for
  -- a mail that is stored.
  pub do_forward-Guarded :
      Guarded (do_forward lib u sql_lower domains main_domain w m address owner raw_data s)
  unfolding do_forward forward_parts send_out forward_to_local_user
  do_forward-Guarded = record { sending = ground arith; giving = ground arith }
