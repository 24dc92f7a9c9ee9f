-- ===== src/Imap/Fetching/Sections.antt =====
-- listen/imap_server/session_fetch.go: the sections of a body, and `write`.
use pmail.Base.{
  ℕ, Bool, true, not, ◌&&◌, Option, none, some, List, [], ◌∷◌, ◌++◌, ◌==◌, if◌then◌else◌, length,
  is_empty, Text, codes, text_eq, Unicode, to_lower,
}
use pmail.Imap.Fetching.{
  Envelope, FetchMail, Formats, BodyStructure, build_envelope, body_structure_of,
}
use pmail.Imap.Storing.{make_read}
use pmail.Parsemail.{MailUser}
use pmail.Tables.{UserEmail}

-- imap.PartSpecifier and imap.FetchItemBodySection
pub data Specifier : Type 0 where
  whole header body_text mime : Specifier

pub record Section : Type 0 where
  pub peek : Bool
  pub specifier : Specifier
  pub header_fields : List Text
  pub part : List ℕ

-- imap.FetchOptions
pub record FetchOptions : Type 0 where
  pub uid : Bool
  pub envelope : Bool
  pub body_structure : Option Bool
  pub rfc822_size : Bool
  pub flags : Bool
  pub internal_date : Bool
  pub body_section : List Section

-- What is written for a message.
pub data Written : Type 0 where
  uid_item : ℕ → Written
  envelope_item : Envelope → Written
  structure_item : BodyStructure → Written
  size_item : ℕ → Written
  flags_item : Bool → Written
  date_item : ℕ → Written
  section_item : Section → Text → Written

abbrev crlf : Text
crlf = 13 ∷ 10 ∷ []

-- What stands before and behind the first line break.
unfoldable pub cut_line : Text → Text × Option Text
cut_line [] = ([], none)
cut_line (c ∷ []) = (c ∷ [], none)
cut_line (c ∷ d ∷ cs) =
    let rest = cut_line (d ∷ cs) in
    if c == 13 && d == 10 then ([], some cs) else (c ∷ rest.0, rest.1)

module _ (f : Formats) where
  -- `User.Build` and `users2String`
  unfoldable pub build_string : MailUser → Text
  build_string r =
      if is_empty r.name
      then codes "<" ++ (r.email_address ++ codes ">")
      else codes "\"" ++ (f.q_encode r.name ++ (codes "\" <" ++ (r.email_address ++ codes ">")))

  unfoldable pub users_to_string : List MailUser → Text
  unfolding build_string
  users_to_string [] = []
  users_to_string (r ∷ rs) =
      let rest = users_to_string rs in
      if is_empty rs then build_string r else build_string r ++ (codes ", " ++ rest)

  -- `%s: %s <%s>`, or without the name.
  abbrev named : Text → Text → Text → Text
  named field name address =
      if is_empty name
      then field ++ (address ++ crlf)
      else field ++ (f.q_encode name ++ (codes " <" ++ (address ++ (codes ">" ++ crlf))))

  abbrev reply_line : List MailUser → Text
  reply_line [] = []
  reply_line (r ∷ rs) =
      if is_empty r.email_address then [] else named (codes "Reply-To: ") r.name r.email_address

  abbrev users_line : Text → List MailUser → Text
  users_line field [] = []
  users_line field (r ∷ rs) = field ++ (users_to_string (r ∷ rs) ++ crlf)

  -- The first two lines of the mail as it is built, in one.
  abbrev content_line : Text × Option Text → Text
  content_line (before, none) = []
  content_line (before, some behind) = before ++ ((cut_line behind).0 ++ crlf)

  -- The field of a header by its name in lower case; the Message-ID is made of the row's id.
  unfoldable pub header_field : FetchMail → Text → Text
  unfolding users_to_string cut_line
  header_field m name =
      if text_eq name (codes "date")
      then codes "Date: " ++ (f.rfc1123z m.create_time ++ crlf)
      else if text_eq name (codes "subject")
      then codes "Subject: " ++ (f.q_encode m.subject ++ crlf)
      else if text_eq name (codes "from")
      then named (codes "From: ") m.from_name m.from_address
      else if text_eq name (codes "sender")
      then named (codes "Sender: ") m.from_name m.from_address
      else if text_eq name (codes "reply-to")
      then reply_line m.reply_to
      else if text_eq name (codes "to")
      then users_line (codes "To: ") m.to
      else if text_eq name (codes "cc")
      then users_line (codes "Cc: ") m.cc
      else if text_eq name (codes "bcc")
      then users_line (codes "Bcc: ") m.bcc
      else if text_eq name (codes "message-id")
      then codes "Message-ID: <"
        ++ (f.decimal m.id ++ (codes "@" ++ (f.domain ++ (codes ">" ++ crlf))))
      else if text_eq name (codes "content-type")
      then content_line (cut_line m.built)
      else []

module _ (u : Unicode) (f : Formats) where
  unfoldable pub header_lines : FetchMail → List Text → Text
  unfolding header_field
  header_lines m [] = crlf
  header_lines m (name ∷ names) = header_field f m (to_lower u name) ++ header_lines m names

  abbrev common_fields : List Text
  common_fields =
      codes "date"
      ∷ codes "subject"
      ∷ codes "from"
      ∷ codes "to"
      ∷ codes "cc"
      ∷ codes "message-id"
      ∷ codes "content-type"
      ∷ []

  abbrev header_section : FetchMail → Section → List Written
  header_section m s =
      section_item s
        (header_lines m (if is_empty s.header_fields then common_fields else s.header_fields))
      ∷ []

  abbrev content_section : FetchMail → Section → List Written
  content_section m s =
      section_item s
        (if is_empty s.part then m.built else elim (m.part s.part) [ none ↦ [] | some c ↦ c ])
      ∷ []

  -- What is written for a section.
  unfoldable pub write_section : FetchMail → Section → List Written
  unfolding header_lines
  write_section m s =
      if not (is_empty s.header_fields) then header_section m s else elim s.specifier [
        | header ↦ header_section m s
        | whole ↦ content_section m s
        | body_text ↦ content_section m s
        | mime ↦ []
      ]

  abbrev only : Bool → Written → List Written
  only b w = if b then w ∷ [] else []

  unfoldable pub write_sections : FetchMail → List Section → List Written
  unfolding write_section
  write_sections m [] = []
  write_sections m (s ∷ ss) = write_section m s ++ write_sections m ss

  -- `write`, on one message
  unfoldable pub write_message : FetchOptions → FetchMail → List Written
  unfolding build_envelope body_structure_of write_sections
  write_message o m =
      only o.uid (uid_item m.ue_id)
      ++ (only o.envelope (envelope_item (build_envelope f m))
          ++ ((elim o.body_structure [
            | none ↦ []
            | some extended ↦ structure_item (body_structure_of extended m) ∷ []
          ])
              ++ (only o.rfc822_size (size_item (length m.built))
                  ++ (only o.flags (flags_item (m.is_read == 1))
                      ++ (only o.internal_date (date_item m.create_time)
                          ++ write_sections m o.body_section)))))

-- The calls of `MakeRead` for a message, one for each section that is not peeked at.
unfoldable pub read_sections : (ℕ → Bool) → ℕ → ℕ → List Section → List UserEmail → List UserEmail
unfolding make_read
read_sections fails user_id id [] rows = rows
read_sections fails user_id id (s ∷ ss) rows =
    read_sections fails user_id id ss
      (if s.peek then rows else make_read (fails id) user_id id true rows)

unfoldable pub read_messages :
    (ℕ → Bool) → ℕ → FetchOptions → List FetchMail → List UserEmail → List UserEmail
unfolding read_sections
read_messages fails user_id o [] rows = rows
read_messages fails user_id o (m ∷ ms) rows =
    read_messages fails user_id o ms (read_sections fails user_id m.id o.body_section rows)
