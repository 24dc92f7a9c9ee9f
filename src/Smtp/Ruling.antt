-- ===== src/Smtp/Ruling.antt =====
-- listen/smtp_server/read_content.go: what `Data` does behind `saveEmail`, the rules of every user who
-- holds the mail. The plugins that run at the end, and the notice to IDLE, are not modelled.
use pmail.Base.{
  ℕ, Bool, true, false, Option, none, some, List, [], ◌∷◌, ◌++◌, ltb, if◌then◌else◌, is_empty, Text,
}
use pmail.Parsemail.Reader.{Letter}
use pmail.Rules.{Rule, Mail, get_all_rules, match_rule}
use pmail.Rules.Actions.{do_rule}
use pmail.Rules.Forwarding.{Sending}
use pmail.Smtp.Audit.{Store, local_persistence_smtp_error}
use pmail.Smtp.Delivery.{SmtpError}
use pmail.Smtp.Incoming.{Parsed, Saved}
use pmail.Tables.{User}
use pmail.Smtp.Server.{Server}

-- The answer to DATA, one that the client gets when the handler panics among them.
pub data DataReply : Type 0 where
  accepted unread no_auth crashed : DataReply
  refused : SmtpError → DataReply

-- The answer, the tables, how often a mail was handed to delivery, and what rules sent on.
pub record Handled : Type 0 where
  pub reply : DataReply
  pub store : Store
  pub sends : ℕ
  pub forwards : List Sending

-- What the loop of the rules leaves.
pub record Ran : Type 0 where
  pub panicked : Bool
  pub store : Store
  pub forwards : List Sending

abbrev ran : Store → List Sending → Ran
ran s forwards = record { panicked = false; store = s; forwards = forwards }

-- The fields that `saveEmail` reads, and those that rules read.
abbrev pub parsed_of : Letter → Parsed
parsed_of m = record {
  sent_from = m.sent_from;
  to = m.to;
  cc = m.cc;
  bcc = m.bcc;
  subject = m.subject;
  status = m.status;
  msg_id = m.msg_id;
  size = m.size;
  authentication = m.authentication;
}

abbrev pub mail_of : Letter → ℕ → Mail
mail_of m id = record {
  reply_to = m.reply_to;
  sent_from = m.sent_from;
  to = m.to;
  bcc = m.bcc;
  cc = m.cc;
  subject = m.subject;
  text = m.text;
  html = m.html;
  sender = m.sender;
  message_id = id;
  status = m.status;
}

module _ (v : Server) where
  -- One rule of the inner loop, and the rest of it.
  unfoldable pub run_rule : Rule → Mail → User → Text → (Store → Ran) → Option Bool → Store → Ran
  run_rule r m owner raw_data rest none s = record { panicked = true; store = s; forwards = [] }
  run_rule r m owner raw_data rest (some false) s = rest s
  run_rule r m owner raw_data rest (some true) s =
      let (s', sent) =
        do_rule v.lib v.unicode v.sql_lower v.to_int v.world.domains v.main_domain (v.rule_fails r)
          (v.forward_world r) r m owner raw_data s in
      let after = rest s' in
      record { panicked = after.panicked; store = after.store; forwards = sent ++ after.forwards }

  unfoldable pub run_rules : List Rule → Mail → User → Text → Store → Ran
  unfolding run_rule
  run_rules [] m owner raw_data s = ran s []
  run_rules (r ∷ rs) m owner raw_data s =
      run_rule r m owner raw_data (run_rules rs m owner raw_data) (match_rule v.compile r m) s

  -- The loop over the users; behind a panic nothing runs.
  unfoldable pub run_users : List User → Mail → Text → Store → Ran
  unfolding run_rules
  run_users [] m raw_data s = ran s []
  run_users (owner ∷ users) m raw_data s =
      let rules = get_all_rules v.unmarshal v.rule_rows (v.rule_query_fails owner) owner.id in
      let now = run_rules rules m owner raw_data s in
      let later = run_users users m raw_data now.store in
      if now.panicked then now else record {
        panicked = later.panicked;
        store = later.store;
        forwards = now.forwards ++ later.forwards;
      }

  -- What follows `saveEmail`. A mail that was dropped has no users, and no id.
  unfoldable pub after_save : Letter → Text → Saved → Handled
  unfolding run_users
  after_save m raw_data saved = elim saved.error [
    | some e ↦ record {
      reply = refused local_persistence_smtp_error;
      store = saved.store;
      sends = 0;
      forwards = [];
    }
    | none ↦
        let id = if is_empty saved.users then 0 else saved.store.last_email_id in
        let r = run_users saved.users (mail_of m id) raw_data saved.store in
        let after = if ltb 0 id then r else ran saved.store [] in
        record {
          reply = if after.panicked then crashed else accepted;
          store = after.store;
          sends = 0;
          forwards = after.forwards;
        }
  ]
