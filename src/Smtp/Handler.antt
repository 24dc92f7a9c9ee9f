-- ===== src/Smtp/Handler.antt =====
-- listen/smtp_server/read_content.go: `Data`, the handler of DATA.
pub mod Spoofed
pub mod Own
use pmail.Base.{
  Bool, true, not, ◌&&◌, ◌||◌, Option, none, some, List, [], ◌∷◌, ltb, if◌then◌else◌, length,
  is_empty, any, Text, text_eq,
}
use pmail.Parsemail.{MailUser, get_domain_account, build_user}
use pmail.Parsemail.Reader.{Letter, new_email_from_reader}
use pmail.Smtp.Audit.{Email, Store, local_persistence_smtp_error}
use pmail.Smtp.Audit.Outgoing.{deliver_outgoing_email}
use pmail.Smtp.Incoming.{Saved, received, save_email}
use pmail.Smtp.Session.{Session}
use pmail.Tables.{type_send}
use pmail.Smtp.Server.{Server, spf_check}
use pmail.Smtp.Ruling.{Handled, accepted, unread, no_auth, crashed, refused, parsed_of, after_save}

-- The loop over the plugins, without those that are nil.
abbrev pub run_all {ℓ} : {A : Type ℓ} → List (A → A) → A → A
run_all [] x = x
run_all (f ∷ fs) x = run_all fs (f x)

module _ (v : Server) where
  -- The mail that `saveEmail` writes for a mail of type send.
  unfoldable pub outgoing : Session → Letter → MailUser → Email
  outgoing c m sender =
      record (received v.unicode v.lib v.sql_lower v.world m.size (parsed_of m) sender true true) {
        kind = type_send;
        send_user_id = c.user_id;
      }

  -- The branch for a session that is logged in, behind the test and the plugins.
  unfoldable pub submit : Session → Letter → Option MailUser → Store → Handled
  unfolding outgoing
  submit c m none s = record {
    reply = refused local_persistence_smtp_error;
    store = s;
    sends = 0;
    forwards = [];
  }
  submit c m (some sender) s =
      let row = outgoing c m sender in
      let out =
        deliver_outgoing_email v.error_text v.is_sqlite v.first_faults v.last_faults row c.user_id
          (v.send (record m { msg_id = row.msg_id })) s in
      record {
        reply = elim out.reply [ none ↦ accepted | some e ↦ refused e ];
        store = out.store;
        sends = out.sends;
        forwards = [];
      }

  -- The test on a session that is logged in: the account of the sender, or an administrator.
  unfoldable pub is_own : Session → MailUser → Bool
  is_own c sender = text_eq (get_domain_account sender).0 c.user_account || c.is_admin

  -- The branch for a session that is logged in.
  unfoldable pub submit_checked : Session → Letter → Option MailUser → Store → Handled
  unfolding submit is_own
  submit_checked c m none s = record { reply = crashed; store = s; sends = 0; forwards = [] }
  submit_checked c m (some sender) s =
      let m' = run_all v.plugins.send_before m in
      let out = submit c m' m'.sent_from s in
      if not (is_own c sender)
      then record { reply = no_auth; store = s; sends = 0; forwards = [] }
      else out

  -- `spoofed`
  unfoldable pub is_spoofed : MailUser → Bool → Bool
  is_spoofed sender spf =
      any (λ d. text_eq (get_domain_account sender).1 d) v.world.domains && not spf

  -- The loop over `ReceiveParseAfter`: the authentication is set before each plugin.
  unfoldable pub run_after : Bool × Bool → List (Letter → Letter) → Letter → Letter
  run_after checks [] m = m
  run_after checks (f ∷ fs) m = run_after checks fs (f (record m { authentication = some checks }))

  -- The mail as it goes to `saveEmail`, from the sender that was read, SPF and DKIM.
  unfoldable pub judge : MailUser → Bool → Bool → Letter → Letter
  unfolding is_spoofed run_after
  judge sender spf dkim m =
      let spoofed = is_spoofed sender spf in
      let checks : Bool × Bool = (spf, dkim && not spoofed) in
      let m' = run_after checks v.plugins.parse_after (record m { authentication = some checks }) in
      record m' { authentication = some checks; status = if spoofed then 3 else m'.status }

  -- The call of `saveEmail` on a received mail.
  unfoldable pub save_received : Session → Text → Bool → Bool → Letter → Store → Saved
  save_received c content spf dkim m s =
      save_email v.unicode v.lib v.sql_lower v.world v.is_sqlite v.first_faults (length content)
        (some (parsed_of m)) c.to spf dkim s

  -- The branch for a session that is not logged in; a nil pointer makes it panic.
  unfoldable pub receive :
      Session → Text → Text → Letter → Option MailUser → Option MailUser → Store → Handled
  unfolding spf_check judge after_save save_received
  receive c remote content m (some sender) (some from_header) s =
      let spf = spf_check v.spf remote sender in
      let dkim = v.dkim_check content && not (is_spoofed from_header spf) in
      let m' = judge from_header spf (v.dkim_check content) m in
      after_save v m' content (save_received c content spf dkim m' s)
  receive c remote content m sender from_header s = record {
    reply = crashed;
    store = s;
    sends = 0;
    forwards = [];
  }

  -- The sender of the envelope, for a mail that has none.
  unfoldable pub with_sender : Session → Letter → Letter
  with_sender c m = elim m.sent_from [
    | some sender ↦ m
    | none ↦ if is_empty c.from then m else record m { sent_from = some (build_user v.lib c.from) }
  ]

  -- `Data`, on what is read from the connection.
  unfoldable pub data_handler : Session → Text → Option Text → Store → Handled
  unfolding submit_checked receive with_sender
  data_handler c remote none s = record { reply = unread; store = s; sends = 0; forwards = [] }
  data_handler c remote (some raw) s =
      let content = run_all v.plugins.parse_before raw in
      let m =
        with_sender c
          (new_email_from_reader v.lib c.to (v.read_message content) (length content)) in
      let received_mail = receive c remote content m m.sender m.sent_from s in
      if ltb 0 c.user_id then submit_checked c m m.sent_from s else received_mail
