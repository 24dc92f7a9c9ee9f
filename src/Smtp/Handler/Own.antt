-- ===== src/Smtp/Handler/Own.antt =====
-- listen/smtp_server/read_content.go: which mails `Data` takes from a session that is logged in, and
-- what SPF finds on a mail without the field Sender.
use pmail.Base.{
  ◌≡◌, refl, sym, ap, ◌≢◌, ◌⊎◌, inl, inr, Bool, true, false, not, ◌||◌, Option, none, some, List,
  [], ◌∷◌, ltb, if◌then◌else◌, or_true, or_false, length, is_empty, Text, text_eq, text_eq_iff,
  trim_space, split,
}
use mathlib.Core.Path.{subst}
use pmail.Parsemail.{MailUser, get_domain_account, build_user}
use pmail.Parsemail.Reader.{
  Letter, sanitize_user, new_email_from_reader, new_email_from_reader_no_sender,
}
use pmail.Smtp.Audit.{Email, Store, local_persistence_smtp_error}
use pmail.Smtp.Audit.Delivered.{deliver_outgoing_email-Taken}
use pmail.Smtp.Audit.Outgoing.{delivery_pending_error, target_status, target_error}
use pmail.Smtp.Audit.Stored.{recorded, IsValid}
use pmail.Smtp.Delivery.{SmtpError, downstream_delivery_smtp_error}
use pmail.Smtp.Handler.{
  run_all, outgoing, submit, is_own, submit_checked, with_sender, data_handler,
}
use pmail.Smtp.Ruling.{Handled, DataReply, accepted, refused, no_auth}
use pmail.Smtp.Server.{Server, spf_check, check_parts}
use pmail.Smtp.Session.{Session}
use pmail.Tables.{type_send, status_delivery_pending}

own_pair : Session → Text × Text → Bool
own_pair c p = text_eq p.0 c.user_account || c.is_admin

-- Refused for its sender, with nothing stored or sent.
pub record IsRefused (s : Store) (r : Handled) : Type 0 where
  pub reply : r.reply ≡ no_auth
  pub store : r.store ≡ s
  pub sends : r.sends ≡ 0

-- Told to try again, with nothing stored or sent.
pub record IsPutOff (s : Store) (r : Handled) : Type 0 where
  pub reply : r.reply ≡ refused local_persistence_smtp_error
  pub store : r.store ≡ s
  pub sends : r.sends ≡ 0

abbrev pub reply_of : Option SmtpError → DataReply
reply_of o = elim o [ none ↦ accepted | some e ↦ refused e ]

get_domain_account-parts :
    (sender : MailUser) (account domain : Text) (more : List Text)
    → split b'@' sender.email_address ≡ account ∷ domain ∷ more
    → get_domain_account sender ≡ (account, domain)
unfolding get_domain_account
get_domain_account-parts sender account domain more e =
    ap
      (λ parts. elim parts as (λ _. Text × Text) [
        | [] ↦ ([], [])
        | a ∷ rest ↦ elim rest as (λ _. Text × Text) [ [] ↦ ([], []) | d ∷ ds ↦ (a, d) ]
      ])
      e

module _ (v : Server) where
  -- The raw mail behind the plugins, the user of its field From, and the mail that is parsed.
  abbrev pub content_of : Text → Text
  content_of raw = run_all v.plugins.parse_before raw

  abbrev pub from_of : Text → MailUser
  from_of raw = sanitize_user v.lib (build_user v.lib (v.read_message (content_of raw)).from_line)

  abbrev pub letter_of : Session → Text → Letter
  letter_of c raw =
      new_email_from_reader v.lib c.to (v.read_message (content_of raw)) (length (content_of raw))

  data_handler_submits :
      (c : Session) (remote raw : Text) (s : Store)
      → ltb 0 c.user_id ≡ true
      → data_handler v c remote (some raw) s
        ≡ submit_checked v c (letter_of c raw) (some (from_of raw)) s
  unfolding data_handler with_sender new_email_from_reader
  data_handler_submits c remote raw s h = rw h refl

  -- Recorded as a mail that the session's user sends, and handed to delivery once: the reply is that of
  -- the delivery, and the tables show its result, or that it is still open.
  pub record IsSent (c : Session) (m : Letter) (s : Store) (row : Email) (r : Handled)
      : Type 0 where
    pub written : (sender : MailUser) × (m.sent_from ≡ some sender) × (row ≡ outgoing v c m sender)
    pub subject : row.subject ≡ m.subject
    pub kind : row.kind ≡ type_send
    pub user : row.send_user_id ≡ c.user_id
    pub sends : r.sends ≡ 1
    pub reply :
        let o = v.send (record m { msg_id = row.msg_id }) in
        r.reply ≡ reply_of (downstream_delivery_smtp_error v.error_text o.0 o.1)
    pub store :
        let o = v.send (record m { msg_id = row.msg_id }) in
        (r.store ≡ recorded row c.user_id (target_status o.0) (target_error v.error_text o.0) s)
        ⊎ (r.store ≡ recorded row c.user_id status_delivery_pending (some delivery_pending_error) s)

  submit-IsSent :
      (c : Session) (m : Letter) (o : Option MailUser) (s : Store)
      → IsValid s
      → m.sent_from ≡ o
      → IsPutOff s (submit v c m o s) ⊎ ((row : Email) × IsSent c m s row (submit v c m o s))
  unfolding submit outgoing
  submit-IsSent c m none s valid there = inl (record { reply = refl; store = refl; sends = refl })
  submit-IsSent c m (some sender) s valid there =
      let row = outgoing v c m sender in
      elim (deliver_outgoing_email-Taken v.error_text row c.user_id s v.is_sqlite v.first_faults
        v.last_faults (v.send (record m { msg_id = row.msg_id })) valid) [
          | inl n ↦ inl (record { reply = ap reply_of n.reply; store = n.store; sends = n.sends })
          | inr t ↦ inr (
            row,
            record {
              written = (sender, there, refl);
              subject = refl;
              kind = refl;
              user = refl;
              sends = t.sends;
              reply = ap reply_of t.reply;
              store = t.store;
            },
          )
        ]

  is_own-account :
      (c : Session) (sender : MailUser) (account domain : Text) (more : List Text)
      → split b'@' sender.email_address ≡ account ∷ domain ∷ more
      → is_own v c sender ≡ (text_eq account c.user_account || c.is_admin)
  unfolding is_own own_pair
  is_own-account c sender account domain more e =
      ap (own_pair c) (get_domain_account-parts sender account domain more e)

  -- The two outcomes of the test on the sender.
  abbrev pub Answers : Session → Letter → Text → Store → Handled → Type 0
  Answers c m account s r =
      ((account ≢ c.user_account) × (c.is_admin ≡ false) × IsRefused s r)
      ⊎ (((account ≡ c.user_account) ⊎ (c.is_admin ≡ true))
          × (IsPutOff s r ⊎ ((row : Email) × IsSent c m s row r)))

  submit_checked-Answers :
      (c : Session) (m : Letter) (sender : MailUser) (s : Store) (account : Text)
      → is_own v c sender ≡ (text_eq account c.user_account || c.is_admin)
      → IsValid s
      → Answers c (run_all v.plugins.send_before m) account s (submit_checked v c m (some sender) s)
  unfolding submit_checked
  submit_checked-Answers c m sender s account own valid = go (is_own v c sender) own
    where
      m' : Letter
      m' = run_all v.plugins.send_before m

      go :
          (b : Bool)
          → b ≡ (text_eq account c.user_account || c.is_admin)
          → Answers c m' account s (
              if not b
              then record { reply = no_auth; store = s; sends = 0; forwards = [] }
              else submit v c m' m'.sent_from s)
      go false e =
          let both = or_false (text_eq account c.user_account) c.is_admin (sym e) in
          inl (
            λ same. absurd (cc ((text_eq_iff account c.user_account).1 same, both.0)),
            both.1,
            record { reply = refl; store = refl; sends = refl },
          )
      go true e = inr (
        elim (or_true (text_eq account c.user_account) c.is_admin (sym e)) [
          | inl same ↦ inl ((text_eq_iff account c.user_account).0 same)
          | inr other ↦ inr other.1
        ],
        submit-IsSent c m' m'.sent_from s valid refl,
      )

  -- What `Data` answers to a mail of a session that is logged in, whose field From has the account
  -- before its first "@" and any domain behind it, in tables where no row refers to an id beyond the
  -- last given out, with working ROLLBACKs and no other writer. Either the account is not the session's
  -- and the session is no administrator's: the mail is refused, with nothing stored or sent. Or one of
  -- the two holds: then the mail, as the plugins leave it, is recorded as one that the session's user
  -- sends and handed to delivery once, and the reply is the delivery's; or nothing is stored or sent,
  -- and the client is to try again.
  pub data_handler-submit :
      (c : Session) (remote raw : Text) (s : Store) (account domain : Text) (more : List Text)
      → ltb 0 c.user_id ≡ true
      → split b'@' (from_of raw).email_address ≡ account ∷ domain ∷ more
      → IsValid s
      → Answers c
          (run_all v.plugins.send_before (letter_of c raw))
          account
          s
          (data_handler v c remote (some raw) s)
  data_handler-submit c remote raw s account domain more h e valid =
      subst (Answers c (run_all v.plugins.send_before (letter_of c raw)) account s)
        (sym (data_handler_submits c remote raw s h))
        (submit_checked-Answers c (letter_of c raw) (from_of raw) s account
          (is_own-account c (from_of raw) account domain more e) valid)

  -- A mail without the field Sender, from a peer whose address is not private, fails SPF, whatever the
  -- records of its domain are.
  pub spf_check-no_sender :
      (c : Session) (remote raw : Text)
      → is_empty (trim_space (v.read_message (content_of raw)).sender_line) ≡ true
      → v.spf.is_private remote ≡ false
      → (sender : MailUser) × ((letter_of c raw).sender ≡ some sender)
        × (spf_check v.spf remote sender ≡ false)
  spf_check-no_sender c remote raw blank public = (
    record { email_address = []; name = [] },
    new_email_from_reader_no_sender v.lib c.to (v.read_message (content_of raw))
        (length (content_of raw)) blank,
    unfold spf_check check_parts split in rw public refl,
  )
