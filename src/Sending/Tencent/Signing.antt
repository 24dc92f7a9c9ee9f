-- ===== src/Sending/Tencent/Signing.antt =====
-- utils/send/tencent_ses.go: `callTencentSES`, the signed request and the reading of its answer.
use pmail.Base.{
  ℕ, zero, suc, ◌*◌, ◌||◌, Option, none, some, List, [], ◌∷◌, ◌++◌, ltb, leb, if◌then◌else◌,
  is_empty, Text, codes,
}
use pmail.NetError.{NetError, plain, wrapped}
use pmail.Outbound.{Config}

-- The request to https://ses.tencentcloudapi.com/, with the headers that vary.
pub record HttpPost : Type 0 where
  pub authorization : Text
  pub timestamp : Text
  pub region : Text
  pub payload : Text

-- What `client.Do` and the reading of the body give: an error of either, or a status and a body.
pub data Answer : Type 0 where
  not_done not_read : NetError → Answer
  answered : ℕ → Text → Answer

-- `tencentSESResponse`
pub record Response : Type 0 where
  pub error : Option (Text × Text)
  pub request_id : Text
  pub message_id : Text

-- The libraries, the clock (seconds, and the day in UTC) and the peer.
pub record Api : Type 0 where
  pub sha256_hex : Text → Text
  pub hmac_sha256 : Text → Text → Text
  pub hex : Text → Text
  pub decimal : ℕ → Text
  pub unmarshal : Text → Option Response
  pub now : ℕ
  pub date : Text
  pub perform : HttpPost → Answer

-- The end of `callTencentSES`: an error, or the identifiers of the mail and the request.
pub data SesResult : Type 0 where
  refused : NetError → SesResult
  accepted : Text → Text → SesResult

-- An error, and what is posted.
pub record Posted : Type 0 where
  pub error : Option NetError
  pub posts : List HttpPost

abbrev newline : Text
newline = 10 ∷ []

-- `strings.Join(…, "\n")`, as the format strings write it.
abbrev lines : List Text → Text
lines [] = []
lines (s ∷ []) = s
lines (s ∷ t ∷ ss) = s ++ (newline ++ lines (t ∷ ss))

-- `io.LimitReader`
unfoldable pub limit_reader : ℕ → Text → Text
limit_reader zero s = []
limit_reader (suc n) [] = []
limit_reader (suc n) (c ∷ cs) = c ∷ limit_reader n cs

module _ (api : Api) where
  -- `canonicalRequest`
  unfoldable pub canonical_request : Text → Text
  canonical_request payload = lines (
      codes "POST"
      ∷ codes "/"
      ∷ []
      ∷ codes "content-type:application/json; charset=utf-8"
      ∷ codes "host:ses.tencentcloudapi.com"
      ∷ []
      ∷ codes "content-type;host"
      ∷ api.sha256_hex payload
      ∷ [])

  -- `credentialScope`
  unfoldable pub credential_scope : Text
  credential_scope = api.date ++ codes "/ses/tc3_request"

  -- `stringToSign`
  unfoldable pub string_to_sign : Text → Text
  unfolding canonical_request credential_scope
  string_to_sign payload = lines (
      codes "TC3-HMAC-SHA256"
      ∷ api.decimal api.now
      ∷ credential_scope
      ∷ api.sha256_hex (canonical_request payload)
      ∷ [])

  -- `signature`: the key goes through the day, the service and the kind of request.
  unfoldable pub signature : Text → Text → Text
  unfolding string_to_sign
  signature secret_key payload =
      let secret_date = api.hmac_sha256 (codes "TC3" ++ secret_key) api.date in
      let secret_service = api.hmac_sha256 secret_date (codes "ses") in
      let secret_signing = api.hmac_sha256 secret_service (codes "tc3_request") in
      api.hex (api.hmac_sha256 secret_signing (string_to_sign payload))

  -- `authorization`
  unfoldable pub authorization : Config → Text → Text
  unfolding signature
  authorization cfg payload =
      codes "TC3-HMAC-SHA256 Credential="
      ++ (cfg.tencent_secret_id
          ++ (codes "/"
              ++ (credential_scope
                  ++ (codes ", SignedHeaders=content-type;host, Signature="
                      ++ signature cfg.tencent_secret_key payload))))

  -- The request that `callTencentSES` makes.
  unfoldable pub http_post : Config → Text → HttpPost
  unfolding authorization
  http_post cfg payload = record {
    authorization = authorization cfg payload;
    timestamp = api.decimal api.now;
    region = cfg.tencent_region;
    payload = payload;
  }

  abbrev with_request : Text → Response → Text
  with_request text r = text ++ (codes " (request_id=" ++ (r.request_id ++ codes ")"))

  -- The tests on the status and on the identifier of the mail.
  unfoldable pub read_status : ℕ → Response → SesResult
  read_status status r =
      if ltb status 200 || leb 300 status
      then refused
          (plain (with_request (codes "Tencent SES returned HTTP " ++ api.decimal status) r))
      else if is_empty r.message_id
      then refused (plain (with_request (codes "Tencent SES accepted no message id") r))
      else accepted r.message_id r.request_id

  -- The tests on a response that could be parsed, its error first.
  unfoldable pub read_response : Option (Text × Text) → ℕ → Response → SesResult
  unfolding read_status
  read_response (some e) status r =
      refused (plain (with_request (codes "Tencent SES " ++ (e.0 ++ (codes ": " ++ e.1))) r))
  read_response none status r = read_status status r

  unfoldable pub read_body : ℕ → Option Response → SesResult
  unfolding read_response
  read_body status none = refused (
      plain (
        codes "Tencent SES returned HTTP "
        ++ (api.decimal status ++ codes " with an invalid response")))
  read_body status (some r) = read_response r.error status r

  unfoldable pub read_answer : Answer → SesResult
  unfolding limit_reader read_body
  read_answer (not_done e) = refused (wrapped (codes "Tencent SES request failed") e)
  read_answer (not_read e) = refused (wrapped (codes "Tencent SES: read response") e)
  read_answer (answered status body) =
      read_body status (api.unmarshal (limit_reader (2 * 1024 * 1024) body))

  abbrev pub error_of : SesResult → Option NetError
  error_of (refused e) = some e
  error_of (accepted id request) = none

  -- `callTencentSES`
  unfoldable pub call_tencent_ses : Config → Text → Posted
  unfolding http_post read_answer
  call_tencent_ses cfg payload =
      let post = http_post cfg payload in
      record { error = error_of (read_answer (api.perform post)); posts = post ∷ [] }
