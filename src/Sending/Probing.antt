-- ===== src/Sending/Probing.antt =====
-- The attempts that a delivery makes, and how its error comes from them.
use pmail.Base.{
  ◌≡◌, refl, sym, inl, inr, false, Option, none, some, List, [], ◌∷◌, ◌++◌, append-nil,
  if◌then◌else◌, Bool-cases, Text,
}
use mathlib.Core.Path.{subst}
use pmail.NetError.{
  NetError, protocol, smtp_status, dns, network, certificate, hostname, plain, wrapped, mx_fallback,
  as_protocol, as_certificate, as_hostname,
}
use pmail.Sending.{
  is_permanent_smtp_response, starttls, tls_587, tls_465, plain_25, Try, Delivered,
  certificate_names, step, final, domain_match, try_deliver_to_mx, fail_over,
}

module _ (attempt : Try → Option NetError) where
  -- The attempt failed, but was not refused for good.
  abbrev pub FailsForNow : Try → Type 0
  FailsForNow t = (e : NetError) × (attempt t ≡ some e) × (is_permanent_smtp_response e ≡ false)

  -- Every attempt but the last failed for now, and the error is that of the last.
  abbrev pub Probes : List Try → Option NetError → Type 0
  Probes [] o = ⊥
  Probes (t ∷ []) o = attempt t ≡ o
  Probes (t ∷ t' ∷ ts) o = FailsForNow t × Probes (t' ∷ ts) o

  abbrev pub Probed : Delivered → Type 0
  Probed r = Probes r.tries r.error

  Probes-next :
      (t : Try) (ts : List Try) (o : Option NetError)
      → FailsForNow t
      → Probes ts o
      → Probes (t ∷ ts) o
  Probes-next t [] o f p = absurd p
  Probes-next t (t' ∷ ts) o f p = (f, p)

  Probes-append :
      (xs ys : List Try) (e : NetError) (o : Option NetError)
      → is_permanent_smtp_response e ≡ false
      → Probes xs (some e)
      → Probes ys o
      → Probes (xs ++ ys) o
  Probes-append [] ys e o h p q = absurd p
  Probes-append (t ∷ []) ys e o h p q = Probes-next t ys o (e, p, h) q
  Probes-append (t ∷ t' ∷ ts) ys e o h p q = (p.0, Probes-append (t' ∷ ts) ys e o h p.1 q)

  step-Probed : (t : Try) (later : Delivered) → Probed later → Probed (step attempt t later)
  unfolding step
  step-Probed t later p = go (attempt t) refl
    where
      go :
          (o : Option NetError)
          → attempt t ≡ o
          → Probed (elim o as (λ _. Delivered) [
            | none ↦ record { error = none; tries = t ∷ [] }
            | some e ↦
                if is_permanent_smtp_response e
                then record { error = some e; tries = t ∷ [] }
                else record { error = later.error; tries = t ∷ later.tries }
          ])
      go none h = h
      go (some e) h = elim (Bool-cases (is_permanent_smtp_response e)) [
        | inl k ↦ rw k h
        | inr k ↦ rw k (Probes-next t later.tries later.error (e, h, k) p)
      ]

as_hostname-no_protocol :
    (e : NetError) (names : List Text) → as_hostname e ≡ some names → as_protocol e ≡ none
unfolding as_hostname as_protocol
as_hostname-no_protocol (protocol c s) names h = absurd cc
as_hostname-no_protocol (smtp_status c s) names h = refl
as_hostname-no_protocol (dns f t p) names h = refl
as_hostname-no_protocol (network s) names h = refl
as_hostname-no_protocol (certificate e) names h = as_hostname-no_protocol e names h
as_hostname-no_protocol (hostname o) names h = refl
as_hostname-no_protocol (plain s) names h = refl
as_hostname-no_protocol (wrapped s e) names h = as_hostname-no_protocol e names h
as_hostname-no_protocol (mx_fallback e f) names h = as_hostname-no_protocol e names h

certificate_names-no_protocol :
    (e : NetError) (names : List Text) → certificate_names e ≡ some names → as_protocol e ≡ none
unfolding certificate_names as_certificate as_protocol
certificate_names-no_protocol (protocol c s) names h = absurd cc
certificate_names-no_protocol (smtp_status c s) names h = refl
certificate_names-no_protocol (dns f t p) names h = refl
certificate_names-no_protocol (network s) names h = refl
certificate_names-no_protocol (certificate e) names h = as_hostname-no_protocol e names h
certificate_names-no_protocol (hostname o) names h = refl
certificate_names-no_protocol (plain s) names h = refl
certificate_names-no_protocol (wrapped s e) names h = certificate_names-no_protocol e names h
certificate_names-no_protocol (mx_fallback e f) names h = certificate_names-no_protocol e names h

-- An error that leads to a second attempt under another name is no refusal for good.
certificate_names-not_permanent :
    (e : NetError) (names : List Text)
    → certificate_names e ≡ some names
    → is_permanent_smtp_response e ≡ false
unfolding is_permanent_smtp_response
certificate_names-not_permanent e names h =
    rw (is_permanent_smtp_response, certificate_names-no_protocol e names h) refl

module _ (attempt : Try → Option NetError) where
  -- The attempts at one host: each but the last failed without being refused for good, and the error
  -- is that of the last one.
  try_deliver_to_mx-Probed :
      (host domain : Text) → Probed attempt (try_deliver_to_mx attempt host domain)
  unfolding try_deliver_to_mx
  try_deliver_to_mx-Probed host domain = go (attempt (starttls [], host)) refl
    where
      on_tls : Delivered
      on_tls =
          step attempt (tls_587, host)
            (step attempt (tls_465, host) (final attempt (plain_25, host)))

      on_tls-Probed : Probed attempt on_tls
      on_tls-Probed =
          step-Probed attempt (tls_587, host) _ (step-Probed attempt (tls_465, host) _ refl)

      with_names :
          (e : NetError)
          → attempt (starttls [], host) ≡ some e
          → (n : Option (List Text)) → certificate_names e ≡ n
          → Probed attempt (elim n as (λ _. Delivered) [
            | none ↦ step attempt (starttls [], host) on_tls
            | some names ↦
                let again = step attempt (starttls (domain_match domain names), host) on_tls in
                record { error = again.error; tries = (starttls [], host) ∷ again.tries }
          ])
      with_names e h none k = step-Probed attempt (starttls [], host) on_tls on_tls-Probed
      with_names e h (some names) k =
          Probes-next attempt (starttls [], host) _ _
            (e, h, certificate_names-not_permanent e names k)
            (step-Probed attempt (starttls (domain_match domain names), host) on_tls on_tls-Probed)

      go :
          (o : Option NetError)
          → attempt (starttls [], host) ≡ o
          → Probed attempt (elim o as (λ _. Delivered) [
            | none ↦ record { error = none; tries = (starttls [], host) ∷ [] }
            | some e ↦ elim (certificate_names e) [
              | none ↦ step attempt (starttls [], host) on_tls
              | some names ↦
                  let again = step attempt (starttls (domain_match domain names), host) on_tls in
                  record { error = again.error; tries = (starttls [], host) ∷ again.tries }
            ]
          ])
      go none h = h
      go (some e) h = with_names e h (certificate_names e) refl

  -- Over all hosts of a domain, whatever the servers answer: every attempt but the last failed
  -- without being refused for good, and the error is that of the last. So a host is tried only if
  -- every attempt at the hosts before it failed for now.
  pub fail_over-Probed :
      (domain : Text) (last : Option NetError) (host : Text) (hosts : List Text)
      → Probed attempt (fail_over attempt domain last (host ∷ hosts))
  unfolding fail_over
  fail_over-Probed domain last host [] =
      let r = try_deliver_to_mx attempt host domain in
      go r.tries r.error (try_deliver_to_mx-Probed host domain)
    where
      go :
          (ts : List Try) (o : Option NetError)
          → Probes attempt ts o
          → Probed attempt (elim o as (λ _. Delivered) [
            | none ↦ record { error = none; tries = ts }
            | some e ↦
                if is_permanent_smtp_response e
                then record { error = some e; tries = ts }
                else record { error = o; tries = ts ++ [] }
          ])
      go ts none p = p
      go ts (some e) p = elim (Bool-cases (is_permanent_smtp_response e)) [
        | inl k ↦ rw k p
        | inr k ↦ rw k (subst (λ l. Probes attempt l (some e)) (sym (append-nil ts)) p)
      ]
  fail_over-Probed domain last host (next ∷ hosts) =
      let r = try_deliver_to_mx attempt host domain in
      go r.tries r.error (try_deliver_to_mx-Probed host domain)
        (λ o. fail_over-Probed domain o next hosts)
    where
      go :
          (ts : List Try) (o : Option NetError)
          → Probes attempt ts o
          → ((l : Option NetError) → Probed attempt (fail_over attempt domain l (next ∷ hosts)))
          → let rest = fail_over attempt domain o (next ∷ hosts) in
            Probed attempt (elim o as (λ _. Delivered) [
              | none ↦ record { error = none; tries = ts }
              | some e ↦
                  if is_permanent_smtp_response e
                  then record { error = some e; tries = ts }
                  else record { error = rest.error; tries = ts ++ rest.tries }
            ])
      go ts none p later = p
      go ts (some e) p later = elim (Bool-cases (is_permanent_smtp_response e)) [
        | inl k ↦ rw k p
        | inr k ↦ rw k (Probes-append attempt ts _ e _ k p (later (some e)))
      ]
