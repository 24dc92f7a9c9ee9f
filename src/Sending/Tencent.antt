-- ===== src/Sending/Tencent.antt =====
-- utils/send/tencent_ses.go: the request to Tencent's API, its signature and the reading of its answer;
-- and `deliverTencentSESRaw` of relay.go. SHA-256, HMAC, hexadecimal, Base64, JSON and the HTTP
-- connection are the record `Api`.
pub mod Signing
pub mod Checked
pub mod Keys
pub mod Recipients
use pmail.Base.{
  ℕ, ◌+◌, ◌*◌, ◌⊎◌, inl, inr, not, ◌&&◌, ◌||◌, Option, none, some, List, [], ◌∷◌, ◌++◌, map, ltb,
  ◌==◌, if◌then◌else◌, length, is_empty, any, select, Text, codes, text_eq, trim_space, trim_set,
  Unicode, to_lower,
}
use pmail.Base.Int.{ℤ}
use pmail.NetError.{NetError, plain, wrapped}
use pmail.Outbound.{Config}
use pmail.Parsemail.{MailUser}
use pmail.Sending.Tencent.Signing.{Api, Posted, call_tencent_ses}

-- `parsemail.Attachment`, as far as it is read: its name and its bytes.
pub record Attachment : Type 0 where
  pub filename : Text
  pub content : Text

-- The fields of parsemail.Email that are read.
pub record SesMail : Type 0 where
  pub sent_from : Option MailUser
  pub reply_to : List MailUser
  pub to : List MailUser
  pub cc : List MailUser
  pub bcc : List MailUser
  pub subject : Text
  pub text : Text
  pub html : Text
  pub attachments : List Attachment
  pub msg_id : Text

-- `tencentSESSendRequest`, its `Simple` being the two bodies.
pub record Request : Type 0 where
  pub from_email_address : Text
  pub destination : List Text
  pub cc : List Text
  pub bcc : List Text
  pub reply_to_addresses : Text
  pub subject : Text
  pub html : Text
  pub text : Text
  pub attachments : List (Text × Text)
  pub trigger_type : ℤ
  pub smtp_message_id : Text
  pub header_from : Text

-- `emailAddresses`
unfoldable pub email_addresses : List MailUser → List Text
email_addresses [] = []
email_addresses (r ∷ rs) =
    let rest = email_addresses rs in
    if is_empty (trim_space r.email_address) then rest else trim_space r.email_address ∷ rest

-- `replyToAddress`
unfoldable pub reply_to_address : List MailUser → MailUser → Text
reply_to_address [] sender = sender.email_address
reply_to_address (r ∷ rs) sender =
    if is_empty r.email_address then sender.email_address else r.email_address

-- `headerFrom`, without the colons of the name.
unfoldable pub header_from : MailUser → Text
header_from r =
    let name = trim_space (select (λ c. not (c == b':')) r.name) in
    if is_empty name
    then r.email_address
    else name ++ (codes " <" ++ (r.email_address ++ codes ">"))

-- `attachmentBytes`
unfoldable pub attachment_bytes : List Attachment → ℕ
attachment_bytes [] = 0
attachment_bytes (a ∷ more) = length a.content + attachment_bytes more

abbrev pub max_attachments : ℕ
max_attachments = 10

abbrev pub max_attachment_bytes : ℕ
max_attachment_bytes = 4 * 1024 * 1024

-- The conditions on the mail, in their order, the size of the attachments last.
unfoldable pub refusal : SesMail → Option NetError
unfolding attachment_bytes
refusal m =
    if is_empty (m.to ++ (m.cc ++ m.bcc))
    then some (plain (codes "Tencent SES: missing recipient"))
    else if is_empty m.text && is_empty m.html
    then some (plain (codes "Tencent SES: missing email content"))
    else if ltb max_attachments (length m.attachments)
    then some (plain (codes "Tencent SES: at most 10 attachments are supported"))
    else if ltb max_attachment_bytes (attachment_bytes m.attachments)
    then some (plain (codes "Tencent SES: total attachment size exceeds 4 MiB"))
    else none

module _ (base64 : Text → Text) where
  -- `encodeBase64`
  abbrev encode_base64 : Text → Text
  encode_base64 s = if is_empty s then [] else base64 s

  -- `request`
  unfoldable pub request_of : Config → SesMail → MailUser → Request
  request_of cfg m sender = record {
    from_email_address = cfg.tencent_from_address;
    destination = email_addresses m.to;
    cc = email_addresses m.cc;
    bcc = email_addresses m.bcc;
    reply_to_addresses = reply_to_address m.reply_to sender;
    subject = m.subject;
    html = encode_base64 m.html;
    text = encode_base64 m.text;
    attachments = map (λ a. (a.filename, base64 a.content)) m.attachments;
    trigger_type = cfg.tencent_trigger_type;
    smtp_message_id =
        if is_empty m.msg_id
        then []
        else codes "<" ++ (trim_set (λ c. c == b'<' || c == b'>') m.msg_id ++ codes ">");
    header_from = header_from sender;
  }

-- The end of `sendTencentSES`, with what `json.Marshal` gives.
unfoldable pub post_payload : Api → Config → NetError ⊎ Text → Posted
post_payload api cfg (inl e) = record {
  error = some (wrapped (codes "Tencent SES: encode request") e);
  posts = [];
}
post_payload api cfg (inr payload) = call_tencent_ses api cfg payload

abbrev pub Marshal : Type 0
Marshal = Request → NetError ⊎ Text

module _ (base64 : Text → Text) (marshal : Marshal) (api : Api) where
  -- `sendTencentSES` behind its first tests, with their error, on a mail with a sender
  unfoldable pub send_with : Config → SesMail → MailUser → Option NetError → Posted
  unfolding request_of post_payload
  send_with cfg m sender (some e) = record { error = some e; posts = [] }
  send_with cfg m sender none = post_payload api cfg (marshal (request_of base64 cfg m sender))

  unfoldable pub send_from : Config → SesMail → Option MailUser → Posted
  unfolding send_with refusal
  send_from cfg m none = record {
    error = some (plain (codes "Tencent SES: missing sender"));
    posts = [];
  }
  send_from cfg m (some sender) = send_with cfg m sender (refusal m)

  -- `sendTencentSES`
  unfoldable pub send_tencent_ses : Config → SesMail → Posted
  unfolding send_from
  send_tencent_ses cfg m = send_from cfg m m.sent_from

module _ (u : Unicode) where
  -- The key of `visible`
  unfoldable pub key_of : MailUser → Text
  key_of r = to_lower u (trim_space r.email_address)

  -- The loop that fills `email.Bcc`.
  unfoldable pub hidden : List Text → List MailUser → List MailUser
  unfolding key_of
  hidden visible [] = []
  hidden visible (r ∷ rs) =
      let rest = hidden visible rs in
      if is_empty (trim_space r.email_address) || any (text_eq (key_of r)) visible
      then rest
      else r ∷ rest

  -- The sender of the mail that was parsed, or that of the envelope.
  unfoldable pub sender_or : Text → Option MailUser → MailUser
  sender_or envelope_from none = record { email_address = envelope_from; name = [] }
  sender_or envelope_from (some s) =
      if is_empty (trim_space s.email_address)
      then record { email_address = envelope_from; name = [] }
      else s

  -- The mail that `deliverTencentSESRaw` sends, from the one that was parsed.
  unfoldable pub raw_mail : SesMail → List MailUser → Text → SesMail
  unfolding hidden sender_or
  raw_mail m recipients envelope_from = record m {
    sent_from = some (sender_or envelope_from m.sent_from);
    bcc = hidden (map key_of (m.to ++ m.cc)) recipients;
  }
