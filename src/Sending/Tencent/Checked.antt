-- ===== src/Sending/Tencent/Checked.antt =====
-- utils/send/tencent_ses.go: what holds of a mail that the API accepted.
use pmail.Base.{
  ℕ, ◌*◌, ◌≤◌, ◌<◌, ◌≡◌, inr, false, ◌&&◌, none, some, [], ◌∷◌, ◌++◌, length, is_empty, Text,
}
use pmail.NetError.{NetError}
use pmail.Outbound.{Config}
use pmail.Parsemail.{MailUser}
use pmail.Sending.Tencent.{
  SesMail, request_of, attachment_bytes, max_attachments, max_attachment_bytes, Marshal,
}
use pmail.Sending.Tencent.Signing.{
  Api, answered, Response, HttpPost, Posted, limit_reader, http_post,
}

-- The mail has a recipient, a content, and attachments within the limits.
pub record Fits (m : SesMail) : Type 0 where
  pub recipients : is_empty (m.to ++ (m.cc ++ m.bcc)) ≡ false
  pub content : (is_empty m.text && is_empty m.html) ≡ false
  pub attachments : length m.attachments ≤ max_attachments
  pub bytes : attachment_bytes m.attachments ≤ max_attachment_bytes

-- The status is from 200 to 299, and the response has no error and names the mail.
pub record IsGood (status : ℕ) (r : Response) : Type 0 where
  pub no_error : r.error ≡ none
  pub at_least : 200 ≤ status
  pub below : status < 300
  pub has_id : is_empty r.message_id ≡ false

-- The answer to a request is a good response within the first two mebibytes of its body.
abbrev pub Accepts : Api → HttpPost → Type 0
Accepts api post =
    (status : ℕ) × (body : Text) × (r : Response) × (api.perform post ≡ answered status body)
    × (api.unmarshal (limit_reader (2 * 1024 * 1024) body) ≡ some r)
    × IsGood status r

module _ (base64 : Text → Text) (marshal : Marshal) (api : Api) (cfg : Config) where
  -- What was sent for a mail of this sender.
  abbrev pub Sends : SesMail → MailUser → Posted → Type 0
  Sends m sender r =
      (payload : Text) × (marshal (request_of base64 cfg m sender) ≡ inr payload)
      × (r.posts ≡ http_post api cfg payload ∷ [])
      × Accepts api (http_post api cfg payload)
