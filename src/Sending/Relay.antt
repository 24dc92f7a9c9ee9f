-- ===== src/Sending/Relay.antt =====
-- utils/send/relay.go: `sendSMTPRelay`, the dialogue with the relay. What net/smtp and crypto/tls answer
-- is a record.
use pmail.Base.{
  Bool, not, ◌&&◌, ◌||◌, Option, none, some, List, [], ◌∷◌, ◌++◌, if◌then◌else◌, is_empty, Text,
  codes, text_eq, trim_space,
}
use pmail.NetError.{NetError, plain, wrapped}
use pmail.Outbound.{security_tls, security_starttls}

-- What the program does to the connection, in order.
pub data Action : Type 0 where
  dial_tls dial_plain greet start_tls authenticate mail_from start_data write_body finish : Action
  rcpt_to : Text → Action

-- The errors of these, and whether the relay advertises STARTTLS.
pub record Peer : Type 0 where
  pub dialed : Option NetError
  pub greeted : Option NetError
  pub has_starttls : Bool
  pub started_tls : Option NetError
  pub authenticated : Option NetError
  pub took_mail : Option NetError
  pub took_rcpt : Text → Option NetError
  pub took_data : Option NetError
  pub wrote : Option NetError
  pub closed : Option NetError

abbrev pub Outcome : Type 0
Outcome = List Action × Option NetError

-- An action, after whose error nothing follows.
unfoldable pub perform : Action → Option NetError → Outcome → Outcome
perform a (some e) rest = (a ∷ [], some e)
perform a none rest = (a ∷ rest.0, rest.1)

abbrev wrap_error : Text → Option NetError → Option NetError
wrap_error text none = none
wrap_error text (some e) = some (wrapped text e)

module _ (peer : Peer) (security username password : Text) where
  -- The body; an error of its writing still closes it.
  unfoldable pub send_body : Outcome
  send_body = perform start_data peer.took_data (elim peer.wrote [
    | some e ↦ (write_body ∷ finish ∷ [], some e)
    | none ↦ perform write_body none (perform finish peer.closed ([], none))
  ])

  -- The loop over the recipients, and what follows.
  unfoldable pub send_to : List Text → Outcome
  send_to [] = send_body
  send_to (t ∷ ts) =
      let rest = send_to ts in
      if is_empty (trim_space t)
      then rest
      else perform (rcpt_to t)
          (wrap_error (codes "recipient " ++ (t ++ codes " rejected")) (peer.took_rcpt t)) rest

  -- From the MAIL command on.
  unfoldable pub send_message : List Text → Outcome
  send_message to = perform mail_from peer.took_mail (send_to to)

  -- The authentication, and what follows.
  unfoldable pub log_on : List Text → Outcome
  log_on to =
      if is_empty username && is_empty password
      then send_message to
      else if is_empty username || is_empty password
      then ([], some (plain (codes "SMTP relay username and password must both be configured")))
      else perform authenticate
          (wrap_error (codes "SMTP relay authentication failed") peer.authenticated)
          (send_message to)

  -- STARTTLS, and what follows.
  unfoldable pub upgrade : List Text → Outcome
  upgrade to =
      if text_eq security security_starttls
      then if not peer.has_starttls
        then ([], some (plain (codes "SMTP relay does not advertise STARTTLS")))
        else perform start_tls peer.started_tls (log_on to)
      else log_on to

  -- `sendSMTPRelay`
  unfoldable pub send_smtp_relay : List Text → Outcome
  send_smtp_relay to =
      let opened = perform greet peer.greeted (upgrade to) in
      if text_eq security security_tls
      then perform dial_tls peer.dialed opened
      else if text_eq security security_starttls
      then perform dial_plain peer.dialed opened
      else ([], some (plain (codes "unsupported SMTP relay security: " ++ security)))
