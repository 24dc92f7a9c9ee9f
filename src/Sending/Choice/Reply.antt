-- ===== src/Sending/Choice/Reply.antt =====
-- utils/send: how the choice of the way out shows in the SMTP reply of listen/smtp_server.
use pmail.Base.{
  ℕ, ◌≡◌, refl, sym, ap, ◌∙◌, ◌⊎◌, inl, inr, Bool, true, false, ◌&&◌, Option, none, some, List, [],
  ◌∷◌, map, arith, if◌then◌else◌, Bool-cases, is_empty, all, All, Text, codes, text_eq,
}
use mathlib.Core.Path.{subst}
use pmail.NetError.{NetError, wrapped}
use pmail.Outbound.{Config, mode_relay}
use pmail.Parsemail.{MailUser}
use pmail.Sending.Choice.{Ways, relay_domain_errors, deliver_relay, try_relay, do_send}
use pmail.Sending.Domains.{Sent, put_in}
use pmail.Smtp.Delivery.{
  DomainErrors, SmtpError, entry_permanent, is_permanent, is_permanent_delivery_error,
  downstream_delivery_smtp_error,
}

-- Every error of the map is that of the delivery.
AllSame : Option NetError → DomainErrors → Type 0
AllSame e m = All (λ d. d.1 ≡ e) m

put_in-AllSame :
    (e : Option NetError) (k : Text) (m : DomainErrors)
    → AllSame e m
    → AllSame e (put_in text_eq k e m)
unfolding AllSame
put_in-AllSame e k [] h = (refl, tt)
put_in-AllSame e k ((k', e') ∷ m) (h, hs) = elim (Bool-cases (text_eq k k')) [
  | inl same ↦ rw same (refl, hs)
  | inr other ↦ rw other (h, put_in-AllSame e k m hs)
]

relay_domain_errors-AllSame :
    (e : Option NetError) (rs : List MailUser) (m : DomainErrors)
    → AllSame e m
    → AllSame e (relay_domain_errors e rs m)
unfolding relay_domain_errors
relay_domain_errors-AllSame e [] m h = h
relay_domain_errors-AllSame e (r ∷ rs) m h =
    relay_domain_errors-AllSame e rs _ (put_in-AllSame e _ m h)

entry_permanent_same :
    (e : NetError) (d : Text × Option NetError)
    → d.1 ≡ some e
    → entry_permanent d ≡ is_permanent_delivery_error e
unfolding entry_permanent
entry_permanent_same e d h = ap (λ o. entry_permanent (d.0, o)) h

and_same : (a b p : Bool) → a ≡ p → (b ≡ true) ⊎ (b ≡ p) → (a && b) ≡ p
and_same a b p h k = ground arith

and_false : (a b : Bool) → b ≡ false → (a && b) ≡ false
and_false a b h = ground arith

is_permanent-AllSame :
    (e : NetError) (m : DomainErrors)
    → AllSame (some e) m
    → is_empty m ≡ false
    → is_permanent m ≡ is_permanent_delivery_error e
unfolding is_permanent AllSame
is_permanent-AllSame e [] h full = absurd (cc full)
is_permanent-AllSame e (d ∷ ds) (h, hs) full =
    and_same _ _ _ (entry_permanent_same e d h) (all-same ds hs)
  where
    all-same :
        (ds : DomainErrors)
        → All (λ d. d.1 ≡ some e) ds
        → (all entry_permanent ds ≡ true) ⊎ (all entry_permanent ds ≡ is_permanent_delivery_error e)
    all-same [] hs = inl refl
    all-same (d ∷ ds) (h, hs) = inr (and_same _ _ _ (entry_permanent_same e d h) (all-same ds hs))

put_in_full :
    (k : Text) (e : Option NetError) (m : DomainErrors) → is_empty (put_in text_eq k e m) ≡ false
put_in_full k e [] = refl
put_in_full k e ((k', e') ∷ m) = elim (Bool-cases (text_eq k k')) [
  | inl same ↦ rw same refl
  | inr other ↦ rw other refl
]

relay_domain_errors_full :
    (e : Option NetError) (rs : List MailUser) (m : DomainErrors)
    → (is_empty rs && is_empty m) ≡ false
    → is_empty (relay_domain_errors e rs m) ≡ false
unfolding relay_domain_errors
relay_domain_errors_full e [] m h = h
relay_domain_errors_full e (r ∷ rs) m h =
    relay_domain_errors_full e rs _ (and_false (is_empty rs) _ (put_in_full _ e m))

-- The code of a reply, if there is one.
pub code_of : Option SmtpError → Option ℕ
code_of none = none
code_of (some r) = some r.code

-- 550 for an error that is permanent, otherwise 451.
pub relayed_code : Option NetError → Option ℕ
relayed_code none = none
relayed_code (some e) = some (if is_permanent_delivery_error e then 550 else 451)

module _ (error_text : NetError → Text) where
  code-downstream :
      (e e' : NetError) (m : DomainErrors)
      → AllSame (some e) m
      → is_empty m ≡ false
      → code_of (downstream_delivery_smtp_error error_text (some e') m) ≡ relayed_code (some e)
  unfolding code_of relayed_code downstream_delivery_smtp_error
  code-downstream e e' m h full = elim (Bool-cases (is_permanent_delivery_error e)) [
    | inl p ↦ rw (p, is_permanent-AllSame e m h full ∙ p) refl
    | inr p ↦ rw (p, is_permanent-AllSame e m h full ∙ p) refl
  ]

  -- What `deliver_relay` makes of the relay's answer.
  relayed : Option NetError → List MailUser → Sent
  relayed r to = (
    elim r [ none ↦ none | some why ↦ some (wrapped (codes "SMTP relay delivery failed") why) ],
    relay_domain_errors r to [],
  )

  code-relayed :
      (r : Option NetError) (to : List MailUser)
      → is_empty to ≡ false
      → code_of (downstream_delivery_smtp_error error_text (relayed r to).0 (relayed r to).1)
        ≡ relayed_code r
  unfolding relayed
  code-relayed none to full = unfold downstream_delivery_smtp_error code_of relayed_code in refl
  code-relayed (some e) to full =
      code-downstream e (wrapped (codes "SMTP relay delivery failed") e) _
        (relay_domain_errors-AllSame (some e) to [] (unfold AllSame in tt))
        (relay_domain_errors_full (some e) to [] (and_left (is_empty to) true full))
    where
      and_left : (a b : Bool) → a ≡ false → (a && b) ≡ false
      and_left a b h = ground arith

  deliver_relay_sends :
      (ways : Ways) (cfg : Config) (to : List MailUser)
      → is_empty to ≡ false
      → deliver_relay ways cfg to ≡ relayed (ways.relay cfg (map (λ s. s.email_address) to)) to
  unfolding deliver_relay relayed
  deliver_relay_sends ways cfg to full = rw full refl

  do_send_relays :
      (ways : Ways) (cfg : Config) (to : List MailUser)
      → cfg.mode ≡ mode_relay
      → do_send ways (inr cfg) to ≡ deliver_relay ways cfg to
  unfolding do_send try_relay text_eq
  do_send_relays ways cfg to relay = rw relay refl

  -- A mail for at least one recipient, with a relay configured: the client of the SMTP server gets the
  -- reply that the relay's answer calls for, no error without one, 550 for an error that is permanent
  -- and 451 for any other, whatever the recipients' domains and the other ways out are.
  pub do_send-relay :
      (ways : Ways) (cfg : Config) (to : List MailUser)
      → cfg.mode ≡ mode_relay
      → is_empty to ≡ false
      → let r = do_send ways (inr cfg) to in
        code_of (downstream_delivery_smtp_error error_text r.0 r.1)
        ≡ relayed_code (ways.relay cfg (map (λ s. s.email_address) to))
  do_send-relay ways cfg to relay full =
      let answer = ways.relay cfg (map (λ s. s.email_address) to) in
      subst (λ r. code_of (downstream_delivery_smtp_error error_text r.0 r.1) ≡ relayed_code answer)
        (sym (do_send_relays ways cfg to relay ∙ deliver_relay_sends ways cfg to full))
        (code-relayed answer to full)
