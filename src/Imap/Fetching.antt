-- ===== src/Imap/Fetching.antt =====
-- listen/imap_server/session_fetch.go: `Fetch`, with the answers that it writes. The list of messages is
-- `GetEmailListByGroup`'s; the text that `BuildBytes` and `BuildPart` give is a field of the message, and
-- mime.QEncoding and the formats of time are the record `Formats`.
pub mod Sections
pub mod Addresses
use pmail.Base.{
  ℕ, ◌+◌, ◌%◌, ◌^◌, Bool, Option, none, some, List, [], ◌∷◌, ◌++◌, map, ◌==◌, if◌then◌else◌, length,
  is_empty, select, Text, codes,
}
use pmail.Parsemail.{MailUser}
use pmail.Smtp.Session.{cut_last_at}

-- imap.Address, imap.Envelope
pub record Address : Type 0 where
  pub name : Text
  pub mailbox : Text
  pub host : Text

pub record Envelope : Type 0 where
  pub date : ℕ
  pub subject : Text
  pub sent_from : List Address
  pub sender : List Address
  pub reply_to : List Address
  pub to : List Address
  pub cc : List Address
  pub bcc : List Address
  pub message_id : Text

-- `parsemail.Attachment`, with the length of its content
pub record AttachedFile : Type 0 where
  pub filename : Text
  pub content_type : Text
  pub size : ℕ

-- `response.EmailResponseData`, with the mail that `NewEmailFromModel` reads from it.
pub record FetchMail : Type 0 where
  pub id : ℕ
  pub ue_id : ℕ
  pub serial_number : ℕ
  pub is_read : ℕ
  pub from_name : Text
  pub from_address : Text
  pub subject : Text
  pub msg_id : Text
  pub create_time : ℕ
  pub sender : Option MailUser
  pub reply_to : List MailUser
  pub to : List MailUser
  pub cc : List MailUser
  pub bcc : List MailUser
  pub text : Text
  pub html : Text
  pub attachments : List AttachedFile
  pub built : Text
  pub part : List ℕ → Option Text

pub record Formats : Type 0 where
  pub q_encode : Text → Text
  pub rfc1123z : ℕ → Text
  pub decimal : ℕ → Text
  pub domain : Text

-- The two parts of an address at its last "@".
unfoldable pub address_parts : Text → Text → Address
address_parts name address = elim (cut_last_at address) [
  | none ↦ record { name = name; mailbox = address; host = [] }
  | some parts ↦ record { name = name; mailbox = parts.0; host = parts.1 }
]

-- `userToAddress`, on a user that is not nil
abbrev pub user_to_address : MailUser → Address
user_to_address r = address_parts r.name r.email_address

-- `usersToAddresses`
unfoldable pub users_to_addresses : List MailUser → List Address
unfolding address_parts
users_to_addresses [] = []
users_to_addresses (r ∷ rs) =
    let rest = users_to_addresses rs in
    if is_empty r.email_address then rest else user_to_address r ∷ rest

abbrev angled : Text → Text
angled s = codes "<" ++ (s ++ codes ">")

-- The sender of the envelope, or else the address of the row.
unfoldable pub envelope_sender : Option MailUser → List Address → List Address
unfolding address_parts
envelope_sender none sent_from = sent_from
envelope_sender (some r) sent_from =
    if is_empty r.email_address then sent_from else user_to_address r ∷ []

module _ (f : Formats) where
  abbrev id_of_row : ℕ → Text
  id_of_row id = angled (f.decimal id ++ (codes "@" ++ f.domain))

  -- `buildEnvelope`
  unfoldable pub build_envelope : FetchMail → Envelope
  unfolding users_to_addresses envelope_sender
  build_envelope m =
      let sent_from : List Address =
        if is_empty m.from_address then [] else address_parts m.from_name m.from_address ∷ [] in
      record {
        date = m.create_time;
        subject = m.subject;
        sent_from = sent_from;
        sender = envelope_sender m.sender sent_from;
        reply_to = if is_empty m.reply_to then sent_from else users_to_addresses m.reply_to;
        to = users_to_addresses m.to;
        cc = users_to_addresses m.cc;
        bcc = users_to_addresses m.bcc;
        message_id = if is_empty m.msg_id then id_of_row m.id else angled m.msg_id;
      }

-- A part of the body, with a size of 32 bits: a text with its number of lines, or a file.
pub data BodyPart : Type 0 where
  text_part : Text → ℕ → ℕ → BodyPart
  file_part : Text → Text → Text → ℕ → BodyPart

-- The part multipart/alternative and the files behind it.
pub record BodyStructure : Type 0 where
  pub alternative : List BodyPart
  pub files : List BodyPart
  pub extended : Bool

abbrev pub uint32 : ℕ → ℕ
uint32 n = n % 2 ^ 32

-- `bytes.Count(s, "\n") + 1`
abbrev lines_of : Text → ℕ
lines_of s = length (select (λ c. c == 10) s) + 1

-- What stands before and behind the first slash.
unfoldable pub cut_slash : Text → Option (Text × Text)
cut_slash [] = none
cut_slash (c ∷ cs) =
    if c == b'/'
    then some ([], cs)
    else elim (cut_slash cs) [ none ↦ none | some parts ↦ some (c ∷ parts.0, parts.1) ]

-- `bsAttachment`
unfoldable pub bs_attachment : AttachedFile → BodyPart
unfolding cut_slash
bs_attachment a = elim (cut_slash a.content_type) [
  | none ↦ file_part (codes "application") (codes "octet-stream") a.filename (uint32 a.size)
  | some parts ↦
      if is_empty parts.0
      then file_part (codes "application") (codes "octet-stream") a.filename (uint32 a.size)
      else file_part parts.0 parts.1 a.filename (uint32 a.size)
]

abbrev part_of : Text → Text → List BodyPart
part_of subtype s =
    if is_empty s then [] else text_part subtype (uint32 (length s)) (lines_of s) ∷ []

-- `bsAlternative`, which stands for a mail without a text by an empty one.
unfoldable pub bs_alternative : Text → Text → List BodyPart
bs_alternative text html =
    let children = part_of (codes "plain") text ++ part_of (codes "html") html in
    if is_empty children then text_part (codes "plain") 0 0 ∷ [] else children

unfoldable pub body_structure_of : Bool → FetchMail → BodyStructure
unfolding bs_alternative bs_attachment
body_structure_of extended m = record {
  alternative = bs_alternative m.text m.html;
  files = map bs_attachment m.attachments;
  extended = extended;
}
