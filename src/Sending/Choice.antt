-- ===== src/Sending/Choice.antt =====
-- utils/send: `tryRelay` and what it calls (relay.go), and `doSend`, `Send` and `forwardData` (send.go),
-- over the ways out, each of which answers for the mail at hand.
pub mod Reply
use pmail.Base.{
  ◌⊎◌, inl, inr, not, Option, none, some, List, [], ◌∷◌, ◌++◌, map, if◌then◌else◌, is_empty, Text,
  codes, text_eq,
}
use pmail.NetError.{NetError, plain, wrapped}
use pmail.Outbound.{Config, mode_tencent_ses, mode_relay}
use pmail.Parsemail.{MailUser, get_domain_account}
use pmail.Sending.Domains.{Sent, put_in}
use pmail.Smtp.Delivery.{DomainErrors}

-- `relayDomainErrors`, from the map `m` on
unfoldable pub relay_domain_errors : Option NetError → List MailUser → DomainErrors → DomainErrors
relay_domain_errors e [] m = m
relay_domain_errors e (r ∷ rs) m =
    let domain = (get_domain_account r).1 in
    relay_domain_errors e rs
      (put_in text_eq (if is_empty domain then codes "relay" else domain) e m)

-- `sendTencentSES` on the mail read anew, `sendSMTPRelay`, and the direct sending.
pub record Ways : Type 0 where
  pub tencent : Config → List MailUser → Option NetError
  pub relay : Config → List Text → Option NetError
  pub direct : List MailUser → Sent

module _ (ways : Ways) where
  -- `deliverTencentSESRaw`
  unfoldable pub deliver_tencent : Config → List MailUser → Sent
  unfolding relay_domain_errors
  deliver_tencent cfg to =
      let e = plain (codes "Tencent SES has no recipients") in
      let r = ways.tencent cfg to in
      if is_empty to
      then (some e, (codes "tencent_ses", some e) ∷ [])
      else (r, relay_domain_errors r to [])

  -- The relay part of `tryRelay`.
  unfoldable pub deliver_relay : Config → List MailUser → Sent
  unfolding relay_domain_errors
  deliver_relay cfg to =
      let e = plain (codes "SMTP relay has no recipients") in
      let r = ways.relay cfg (map (λ s. s.email_address) to) in
      if is_empty to then (some e, (codes "relay", some e) ∷ []) else (
        elim r [ none ↦ none | some why ↦ some (wrapped (codes "SMTP relay delivery failed") why) ],
        relay_domain_errors r to [],
      )

  -- `tryRelay`: `none` is a mail that it does not handle.
  unfoldable pub try_relay : NetError ⊎ Config → List MailUser → Option Sent
  unfolding deliver_tencent deliver_relay
  try_relay (inl e) to =
      some (some (wrapped (codes "load outbound configuration") e), (codes "outbound", some e) ∷ [])
  try_relay (inr cfg) to =
      if text_eq cfg.mode mode_tencent_ses
      then some (deliver_tencent cfg to)
      else if not (text_eq cfg.mode mode_relay)
      then none
      else some (deliver_relay cfg to)

  -- `doSend`
  unfoldable pub do_send : NetError ⊎ Config → List MailUser → Sent
  unfolding try_relay
  do_send settings to = elim (try_relay settings to) [ some r ↦ r | none ↦ ways.direct to ]

  -- `forwardData`
  unfoldable pub forward_data : NetError ⊎ Config → Text → Option NetError
  unfolding do_send
  forward_data settings address =
      (do_send settings (record { email_address = address; name = [] } ∷ [])).0

-- `Send`: the recipients of the mail.
abbrev pub recipients_of : List MailUser → List MailUser → List MailUser → List MailUser
recipients_of to cc bcc = (to ++ cc) ++ bcc
