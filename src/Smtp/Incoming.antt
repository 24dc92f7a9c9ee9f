-- ===== src/Smtp/Incoming.antt =====
-- listen/smtp_server: who a received mail goes to (audit_persistence.go), and how it is saved
-- (`saveEmail` of read_content.go).
pub mod Recipients
use pmail.Base.{
  ℕ, Bool, not, ◌&&◌, ◌||◌, Option, none, some, List, [], ◌∷◌, ◌++◌, map, ◌==◌, if◌then◌else◌,
  is_empty, any, select, Text, text_eq, Unicode, to_lower,
}
use pmail.Parsemail.{MailUser, MailLib, get_domain_account, build_user}
use pmail.Smtp.Audit.{Email, Store, Faults, persist_initial_audit}
use pmail.Tables.{User, type_receive}

-- The fields of parsemail.Email that `saveEmail` reads, with SPF and DKIM of its authentication.
pub record Parsed : Type 0 where
  pub sent_from : Option MailUser
  pub to : List MailUser
  pub cc : List MailUser
  pub bcc : List MailUser
  pub subject : Text
  pub status : ℕ
  pub msg_id : Text
  pub size : ℕ
  pub authentication : Option (Bool × Bool)

-- The users, and which of the two queries on them fail; the settings; a fresh Message-ID.
pub record World : Type 0 where
  pub users : List User
  pub accounts_fail : Bool
  pub admins_fail : Bool
  pub domains : List Text
  pub spam_filter_level : ℕ
  pub fresh_id : Text

pub data SaveError : Type 0 where
  email_missing sender_missing query_failed no_administrator not_persisted : SaveError

-- What `resolveIncomingUsers` returns: an error, the wish to drop the mail, or users.
pub data Resolved : Type 0 where
  unresolved : SaveError → Resolved
  dropped : Resolved
  resolved : List User → Resolved

pub record Saved : Type 0 where
  pub error : Option SaveError
  pub users : List User
  pub store : Store

module _ (u : Unicode) (lib : MailLib) (sql_lower : Text → Text) (w : World) where
  -- The first loop of `incomingAccounts`, over the recipients of the session.
  unfoldable pub envelope_accounts : List Text → List Text
  envelope_accounts [] = []
  envelope_accounts (r ∷ rs) =
      let rest = envelope_accounts rs in
      let parts = get_domain_account (build_user lib r) in
      if any (λ d. text_eq parts.1 d) w.domains && not (is_empty parts.0)
      then to_lower u parts.0 ∷ rest
      else rest

  -- The second, over the recipients that the mail names.
  unfoldable pub header_accounts : List MailUser → List Text
  header_accounts [] = []
  header_accounts (r ∷ rs) =
      let rest = header_accounts rs in
      let account = (get_domain_account r).0 in
      if is_empty account then rest else to_lower u account ∷ rest

  -- `incomingAccounts`
  unfoldable pub incoming_accounts : Parsed → List Text → List Text
  incoming_accounts m really_to =
      if is_empty really_to
      then header_accounts (m.to ++ (m.cc ++ m.bcc))
      else envelope_accounts really_to

  -- `LOWER(account) in (…)`
  abbrev pub is_addressed : List Text → User → Bool
  is_addressed accounts r = any (λ a. text_eq (sql_lower r.account) a) accounts

  -- The condition under which a mail for nobody is dropped.
  unfoldable pub is_spam : Bool → Bool → Bool
  is_spam spf dkim =
      (w.spam_filter_level == 1 && not spf && not dkim)
      || (w.spam_filter_level == 2 && not spf)
      || (w.spam_filter_level == 3 && not dkim)

  -- `resolveIncomingUsers` where no user is addressed
  unfoldable pub resolve_unknown : Bool → Bool → Resolved
  resolve_unknown spf dkim =
      let admins = select (λ r. r.is_admin) w.users in
      if is_spam spf dkim
      then dropped
      else if w.admins_fail
      then unresolved query_failed
      else if is_empty admins
      then unresolved no_administrator
      else resolved admins

  -- `resolveIncomingUsers` for a mail of type receive
  unfoldable pub resolve_incoming_users : List Text → Bool → Bool → Resolved
  unfolding resolve_unknown
  resolve_incoming_users accounts spf dkim =
      let users = select (is_addressed accounts) w.users in
      if not (is_empty accounts) && w.accounts_fail
      then unresolved query_failed
      else if not (is_empty users)
      then resolved users
      else resolve_unknown spf dkim

  abbrev bool_int8 : Bool → ℕ
  bool_int8 b = if b then 1 else 0

  -- `modelEmail`, for a mail of type receive
  abbrev pub received : ℕ → Parsed → MailUser → Bool → Bool → Email
  received size m sender spf dkim = record {
    id = 0;
    kind = type_receive;
    subject = m.subject;
    from_address = sender.email_address;
    size = if m.size == 0 then size else m.size;
    spf_check = bool_int8 spf;
    dkim_check = bool_int8 dkim;
    send_user_id = 0;
    status = m.status;
    error = none;
    msg_id = if is_empty m.msg_id then w.fresh_id else m.msg_id;
  }

  abbrev ids_of : List User → List ℕ
  ids_of users = map (λ r. r.id) users

  -- The end of `saveEmail`: the first persistence, for the users.
  unfoldable pub persist_received : Bool → (ℕ → Faults) → Email → List User → Store → Saved
  persist_received is_sqlite faults m users s =
      let out = persist_initial_audit is_sqlite faults m (ids_of users) s in
      elim out.error [
        | some e ↦ record { error = some not_persisted; users = users; store = out.state }
        | none ↦ record { error = none; users = users; store = out.state }
      ]

  unfoldable pub save_resolved : Bool → (ℕ → Faults) → Email → Resolved → Store → Saved
  unfolding persist_received
  save_resolved is_sqlite faults m (unresolved e) s = record {
    error = some e;
    users = [];
    store = s;
  }
  save_resolved is_sqlite faults m dropped s = record { error = none; users = []; store = s }
  save_resolved is_sqlite faults m (resolved users) s = persist_received is_sqlite faults m users s

  -- The results of SPF and DKIM, which the mail's own authentication overrides.
  abbrev pub checks : Parsed → Bool → Bool → Bool × Bool
  checks m spf dkim = elim m.authentication [ none ↦ (spf, dkim) | some c ↦ c ]

  -- `saveEmail`, for a mail of type receive
  unfoldable pub save_email :
      Bool → (ℕ → Faults) → ℕ → Option Parsed → List Text → Bool → Bool → Store → Saved
  unfolding save_resolved
  save_email is_sqlite faults size none really_to spf dkim s = record {
    error = some email_missing;
    users = [];
    store = s;
  }
  save_email is_sqlite faults size (some m) really_to spf dkim s =
      let c = checks m spf dkim in
      elim m.sent_from [
        | none ↦ record { error = some sender_missing; users = []; store = s }
        | some sender ↦
            save_resolved is_sqlite faults (received size m sender c.0 c.1)
              (resolve_incoming_users (incoming_accounts m really_to) c.0 c.1) s
      ]
