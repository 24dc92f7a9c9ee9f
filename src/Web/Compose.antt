-- ===== src/Web/Compose.antt =====
-- controllers/email/send.go: `Send`, which the web API calls for a mail that a user has written.
pub mod Own
use pmail.Base.{
  ℕ, zero, suc, Bool, false, ◌&&◌, ◌||◌, Option, none, some, List, [], ◌∷◌, ◌++◌, if◌then◌else◌,
  length, is_empty, any, Text, codes, text_eq, has_prefix, split,
}
use pmail.Parsemail.{MailUser}

-- `context.Context`: who is logged in.
pub record Login : Type 0 where
  pub user_id : ℕ
  pub account : Text
  pub name : Text
  pub is_admin : Bool

-- `sendRequest`; an attachment is its name and its data.
pub record SendRequest : Type 0 where
  pub reply_to : List MailUser
  pub sent_from : MailUser
  pub to : List MailUser
  pub bcc : List MailUser
  pub cc : List MailUser
  pub subject : Text
  pub text : Text
  pub html : Text
  pub sender : MailUser
  pub attachments : List (Text × Text)

-- `parsemail.Attachment`
pub record Attached : Type 0 where
  pub filename : Text
  pub content_type : Text
  pub content : Text

-- The fields of the `parsemail.Email` that is built.
pub record Draft : Type 0 where
  pub reply_to : List MailUser
  pub sent_from : MailUser
  pub sender : MailUser
  pub to : List MailUser
  pub bcc : List MailUser
  pub cc : List MailUser
  pub subject : Text
  pub text : Text
  pub html : Text
  pub attachments : List Attached

pub data Refusal : Type 0 where
  params_error subject_missing to_missing attachment_error send_fail : Refusal

-- A request that is refused, that makes the handler panic, or that gives a mail.
pub data Composed : Type 0 where
  refused : Refusal → Composed
  panicked : Composed
  composed : Draft → Composed

-- The part of a list behind some of its elements.
abbrev pub drop {ℓ} : {A : Type ℓ} → ℕ → List A → List A
drop zero xs = xs
drop (suc n) [] = []
drop (suc n) (x ∷ xs) = drop n xs

-- `strings.TrimPrefix`
unfoldable pub trim_prefix : Text → Text → Text
trim_prefix s p = if has_prefix s p then drop (length p) s else s

-- `account@domain` has two parts of which the second is a domain of the server, and the first is the
-- user's own account unless an administrator writes.
unfoldable pub is_allowed : List Text → Login → List Text → Bool
is_allowed domains c (account ∷ domain ∷ []) =
    any (text_eq domain) domains && (c.is_admin || text_eq account c.account)
is_allowed domains c _ = false

-- `reqData.From`, with the user's own address for one that is missing; `none` is an error.
unfoldable pub choose_from : List Text → Text → Login → MailUser → Option MailUser
unfolding is_allowed
choose_from domains domain c r =
    let name = if is_empty r.name then c.name else r.name in
    if is_empty r.email_address
    then some (record { email_address = c.account ++ (codes "@" ++ domain); name = name })
    else if is_allowed domains c (split b'@' r.email_address)
    then some (record { email_address = r.email_address; name = name })
    else none

-- The attachments that were decoded, an error of the decoding, or the panic on `infos[1]`.
pub data Decoded : Type 0 where
  decoded : List Attached → Decoded
  undecodable out_of_range : Decoded

abbrev pub add_attached : Attached → Decoded → Decoded
add_attached a (decoded more) = decoded (a ∷ more)
add_attached a undecodable = undecodable
add_attached a out_of_range = out_of_range

module _ (decode_base64 : Text → Option Text) where
  -- The parts of `att.Data` at its semicolons, and the attachments behind it.
  unfoldable pub decode_parts : Text → List Text → Decoded → Decoded
  decode_parts name [] rest = out_of_range
  decode_parts name (content_type ∷ []) rest = out_of_range
  decode_parts name (content_type ∷ content ∷ more) rest =
      elim (decode_base64 (trim_prefix content (codes "base64,"))) [
        | none ↦ undecodable
        | some c ↦
            add_attached (record { filename = name; content_type = content_type; content = c }) rest
      ]

  -- The loop over the attachments.
  unfoldable pub decode_all : List (Text × Text) → Decoded
  unfolding decode_parts trim_prefix
  decode_all [] = decoded []
  decode_all ((name, content) ∷ more) =
      decode_parts name (split b';' (trim_prefix content (codes "data:"))) (decode_all more)

  -- The mail; `ReplyTo` of the request is not taken over.
  abbrev pub draft_of : SendRequest → MailUser → List Attached → Draft
  draft_of q from_user attachments = record {
    reply_to = [];
    sent_from = from_user;
    sender = if is_empty q.sender.email_address then from_user else q.sender;
    to = q.to;
    bcc = q.bcc;
    cc = q.cc;
    subject = q.subject;
    text = q.text;
    html = q.html;
    attachments = attachments;
  }

  abbrev with_attached : SendRequest → MailUser → Decoded → Composed
  with_attached q from_user (decoded attachments) = composed (draft_of q from_user attachments)
  with_attached q from_user undecodable = refused attachment_error
  with_attached q from_user out_of_range = panicked

  -- The tests of `Send` behind that on the sender, in their order.
  unfoldable pub compose_from : SendRequest → Option MailUser → Composed
  unfolding decode_all
  compose_from q none = refused params_error
  compose_from q (some from_user) =
      if is_empty q.subject
      then refused subject_missing
      else if is_empty q.to
      then refused to_missing
      else with_attached q from_user (decode_all q.attachments)

  unfoldable pub compose : List Text → Text → Login → SendRequest → Composed
  unfolding choose_from compose_from
  compose domains domain c q = compose_from q (choose_from domains domain c q.sent_from)
