-- ===== src/Sending/Secured.antt =====
-- utils/send/relay.go: nothing of a mail, and no password, leaves without TLS.
use pmail.Base.{◌≡◌, Bool, true, false, not, ◌||◌, List, [], ◌∷◌}
use pmail.NetError.{NetError}
use pmail.Sending.Relay.{
  Action, dial_tls, dial_plain, greet, start_tls, authenticate, mail_from, rcpt_to, start_data,
  write_body, finish, Outcome,
}

-- Actions with a password, an address or a mail.
abbrev needs_tls : Action → Bool
needs_tls dial_tls = false
needs_tls dial_plain = false
needs_tls greet = false
needs_tls start_tls = false
needs_tls authenticate = true
needs_tls mail_from = true
needs_tls (rcpt_to t) = true
needs_tls start_data = true
needs_tls write_body = true
needs_tls finish = true

-- Whether TLS protects the connection behind an action.
abbrev tls_after : Bool → Action → Bool
tls_after tls dial_tls = true
tls_after tls dial_plain = false
tls_after tls greet = tls
tls_after tls start_tls = true
tls_after tls authenticate = tls
tls_after tls mail_from = tls
tls_after tls (rcpt_to t) = tls
tls_after tls start_data = tls
tls_after tls write_body = tls
tls_after tls finish = tls

-- Each action that needs it finds TLS.
abbrev pub Guarded : Bool → List Action → Type 0
Guarded tls [] = Unit
Guarded tls (x ∷ xs) = ((tls || not (needs_tls x)) ≡ true) × Guarded (tls_after tls x) xs

-- The same of an outcome.
Held : Bool → Outcome → Type 0
Held tls r = Guarded tls r.0
