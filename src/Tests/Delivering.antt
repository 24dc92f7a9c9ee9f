-- ===== src/Tests/Delivering.antt =====
-- Witnesses for utils/send and the reading of mails.
use pmail.Base.{
  ◌≡◌, refl, ◌↔◌, ◌⊎◌, inl, inr, true, false, Option, none, some, List, [], ◌∷◌, ◌++◌, map,
  is_empty, In, Text, codes, text_eq, is_space, trim_space, split, to_lower, ascii,
}
use pmail.NetError.{NetError}
use pmail.Outbound.{Config, default_config}
use pmail.Parsemail.{MailUser, build_user}
use pmail.Parsemail.Reader.{
  Message, new_email_from_reader, has_address, new_email_from_reader-keeps,
}
use pmail.Sending.{Try, deliver_domain, fail_over, try_deliver_to_mx}
use pmail.Sending.Choice.{Ways, do_send}
use pmail.Sending.Choice.Reply.{code_of, relayed_code, do_send-relay}
use pmail.Sending.Domains.{
  MxDomain, Group, Lookup, domain_of, plan_all, plan_recipient, plan_domain, plan_lookup,
  add_recipient, address_of, deliver_groups, deliver_group, record_failure, report, send_direct,
}
use pmail.Sending.Domains.Covered.{send_direct-delivers}
use pmail.Sending.Domains.Sorted.{KeyOf}
use pmail.Sending.Tencent.{SesMail, request_of, raw_mail}
use pmail.Sending.Tencent.Keys.{keys}
use pmail.Sending.Tencent.Recipients.{all_addresses, raw_mail-recipients}
use pmail.Sending.Tencent.Signing.{Api, answered}
use pmail.Smtp.Delivery.{downstream_delivery_smtp_error}
use pmail.Tests.Data.{same_text, net_text, gone, mail_lib}

abbrev ann : MailUser
ann = record { email_address = codes "ann@x.org"; name = codes "Ann" }

abbrev joe : MailUser
joe = record { email_address = codes "joe@y.org"; name = [] }

abbrev mx_of : Lookup
mx_of n domain = (codes "mx.org" ∷ [], none)

-- Every attempt works.
abbrev takes_all : Group → Try → Option NetError
takes_all g t = none

abbrev one_way : List Group → List Group
one_way gs = gs

ann-domain : domain_of ann ≡ some (codes "x.org")
unfolding domain_of split
ann-domain = refl

sent_well : (send_direct mx_of takes_all one_way (ann ∷ joe ∷ [])).0 ≡ none
unfolding send_direct plan_all plan_recipient plan_domain plan_lookup domain_of split add_recipient
    address_of deliver_groups deliver_group record_failure report deliver_domain fail_over
    try_deliver_to_mx text_eq
sent_well = refl

send_direct-delivers_example :
    (k : MxDomain) × KeyOf mx_of (codes "x.org") k
    × ((tos : List MailUser) × In ann tos × (t : Try) × (takes_all (k, tos) t ≡ none))
send_direct-delivers_example =
    send_direct-delivers mx_of takes_all one_way (ann ∷ joe ∷ []) ann (codes "x.org") (λ k gs h. h)
      sent_well (inl refl) ann-domain

abbrev relayed_config : Config
relayed_config = record default_config { mode = codes "relay"; host = codes "r.org" }

-- The relay refuses the mail for good.
abbrev refusing : Ways
refusing = record { tencent = λ c to. none; relay = λ c to. gone; direct = λ to. (none, []) }

do_send-relay_example :
    let r = do_send refusing (inr relayed_config) (ann ∷ []) in
    code_of (downstream_delivery_smtp_error net_text r.0 r.1)
    ≡ relayed_code (refusing.relay relayed_config (map (λ s. s.email_address) (ann ∷ [])))
do_send-relay_example = do_send-relay net_text refusing relayed_config (ann ∷ []) refl refl

abbrev ses_mail : SesMail
ses_mail = record {
  sent_from = some ann;
  reply_to = [];
  to = ann ∷ [];
  cc = [];
  bcc = [];
  subject = codes "s";
  text = codes "t";
  html = [];
  attachments = [];
  msg_id = codes "m";
}

raw_mail-recipients_example :
    let q = request_of same_text relayed_config (raw_mail ascii ses_mail (joe ∷ []) []) ann in
    In (codes "ann@x.org") (map (to_lower ascii) (all_addresses q))
    ↔ In (codes "ann@x.org") (keys ascii ((ann ∷ [] ++ []) ++ joe ∷ []))
raw_mail-recipients_example =
    raw_mail-recipients ascii same_text relayed_config ses_mail (joe ∷ []) [] ann
      (codes "ann@x.org")

abbrev api : Api
api = record {
  sha256_hex = same_text;
  hmac_sha256 = λ k s. s;
  hex = same_text;
  decimal = λ n. n ∷ [];
  unmarshal = λ s. some (record { error = none; request_id = s; message_id = codes "id" });
  now = 7;
  date = codes "2026-01-01";
  perform = λ post. answered 200 (codes "ok");
}

abbrev message : Message
message = record {
  message_id = codes "<m@x.org>";
  from_line = codes "ann@x.org";
  sender_line = [];
  to_lines = codes "bob@pm.org" ∷ [];
  cc_lines = [];
  reply_to_lines = [];
  subject = codes "s";
  text = codes "t";
  html = [];
}

-- One recipient line with two addresses.
abbrev two_on_a_line : Text
two_on_a_line = codes "joe@y.org, ann@x.org"

two_on_a_line-full : is_empty (trim_space two_on_a_line) ≡ false
unfolding trim_space is_space
two_on_a_line-full = refl

ann-part : In (codes " ann@x.org") (split b',' two_on_a_line)
unfolding split
ann-part = inr (inl refl)

new_email_from_reader-keeps_example :
    let e = new_email_from_reader mail_lib (two_on_a_line ∷ []) message 9 in
    let r = build_user mail_lib (trim_space (codes " ann@x.org")) in
    (has_address e.to r.email_address ≡ true) ⊎ In r e.bcc
new_email_from_reader-keeps_example =
    new_email_from_reader-keeps mail_lib (two_on_a_line ∷ []) message 9 two_on_a_line
      (codes " ann@x.org") (inl refl) two_on_a_line-full ann-part
