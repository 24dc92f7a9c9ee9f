-- ===== src/Sending.antt =====
-- utils/send/send.go: direct delivery to the mail servers of one recipient domain. One attempt of
-- utils/smtp is a function of its transport and host, which answers nil or an error.
pub mod Probing
pub mod Cause
pub mod Domains
pub mod Relay
pub mod Secured
pub mod Tencent
pub mod Choice
use pmail.Base.{
  Bool, true, false, not, ◌&&◌, ◌||◌, Option, none, some, List, [], ◌∷◌, ◌++◌, ◌==◌, if◌then◌else◌,
  is_empty, Text, codes, text_eq, contains, split,
}
use pmail.NetError.{
  NetError, mx_fallback, as_protocol, as_dns, is_network, as_certificate, as_hostname, is_5xx,
}

-- `isPermanentSMTPResponse`
unfoldable pub is_permanent_smtp_response : NetError → Bool
is_permanent_smtp_response e = elim (as_protocol e) [ none ↦ false | some c ↦ is_5xx c ]

-- The ways of `tryDeliverToMX`: STARTTLS on 25 under a server name, TLS on 587 and 465, plain on 25.
pub data Transport : Type 0 where
  starttls : Text → Transport
  tls_587 tls_465 plain_25 : Transport

abbrev pub Try : Type 0
Try = Transport × Text

-- An error, and the attempts made for it.
pub record Delivered : Type 0 where
  pub error : Option NetError
  pub tries : List Try

-- `strings.ReplaceAll(s, "*.", "")`
unfoldable pub drop_stars : Text → Text
drop_stars [] = []
drop_stars (c ∷ []) = c ∷ []
drop_stars (c ∷ d ∷ s) =
    let rest = drop_stars (d ∷ s) in
    let after = drop_stars s in if c == b'*' && d == b'.' then after else c ∷ rest

abbrev is_star : Text → Bool
is_star s = text_eq s (codes "*")

-- The two loops of `domainMatch`, on the labels from the last to the first.
unfoldable pub name_loop : List Text → List Text → Bool
name_loop [] ds = true
name_loop (n ∷ ns) [] = let rest = name_loop ns [] in is_star n && rest
name_loop (n ∷ ns) (d ∷ ds) = let rest = name_loop ns ds in (is_star n || text_eq n d) && rest

unfoldable pub domain_loop : List Text → List Text → Bool
domain_loop ns [] = true
domain_loop [] (d ∷ ds) = false
domain_loop (n ∷ ns) (d ∷ ds) = let rest = domain_loop ns ds in (text_eq n d || is_star n) && rest

abbrev reverse_onto : List Text → List Text → List Text
reverse_onto acc [] = acc
reverse_onto acc (x ∷ xs) = reverse_onto (x ∷ acc) xs

-- `match` for a name with a star
unfoldable pub labels_match : Text → Text → Bool
unfolding name_loop domain_loop
labels_match name domain =
    let ns = reverse_onto [] (split b'.' name) in
    let ds = reverse_onto [] (split b'.' domain) in name_loop ns ds && domain_loop ns ds

-- The loop of `domainMatch` over the names: a result, or what `secondMatch` holds behind it.
unfoldable pub match_names : Text → List Text → Text → Text × Bool
unfolding labels_match
match_names domain [] second = (second, false)
match_names domain (n ∷ ns) second =
    let rest = match_names domain ns (if contains n (codes "smtp") then n else second) in
    if text_eq n domain
    then (n, true)
    else if contains n (codes "*") && labels_match n domain
    then (domain, true)
    else rest

-- `domainMatch`
unfoldable pub domain_match : Text → List Text → Text
unfolding match_names drop_stars
domain_match domain [] = domain
domain_match domain (n ∷ ns) =
    let r = match_names domain (n ∷ ns) [] in
    if r.1 then r.0 else if is_empty r.0 then drop_stars n else drop_stars r.0

-- The names of the certificate that does not fit the host.
unfoldable pub certificate_names : NetError → Option (List Text)
certificate_names e = elim (as_certificate e) [ none ↦ none | some c ↦ as_hostname c ]

module _ (attempt : Try → Option NetError) where
  -- One attempt, and what follows unless it works or is refused for good.
  unfoldable pub step : Try → Delivered → Delivered
  step t later = elim (attempt t) [
    | none ↦ record { error = none; tries = t ∷ [] }
    | some e ↦
        if is_permanent_smtp_response e
        then record { error = some e; tries = t ∷ [] }
        else record { error = later.error; tries = t ∷ later.tries }
  ]

  -- The last attempt.
  abbrev pub final : Try → Delivered
  final t = record { error = attempt t; tries = t ∷ [] }

  -- `tryDeliverToMX`
  unfoldable pub try_deliver_to_mx : Text → Text → Delivered
  unfolding step
  try_deliver_to_mx mx_host domain =
      let on_tls = step (tls_587, mx_host) (step (tls_465, mx_host) (final (plain_25, mx_host))) in
      elim (attempt (starttls [], mx_host)) [
        | none ↦ record { error = none; tries = (starttls [], mx_host) ∷ [] }
        | some e ↦ elim (certificate_names e) [
          | none ↦ step (starttls [], mx_host) on_tls
          | some names ↦
              let again = step (starttls (domain_match domain names), mx_host) on_tls in
              record { error = again.error; tries = (starttls [], mx_host) ∷ again.tries }
        ]
      ]

  -- The loop over the hosts, with `lastErr`.
  unfoldable pub fail_over : Text → Option NetError → List Text → Delivered
  fail_over domain last [] = record { error = last; tries = [] }
  fail_over domain last (host ∷ hosts) =
      let r = try_deliver_to_mx host domain in
      let rest = fail_over domain r.error hosts in
      elim r.error [
        | none ↦ record { error = none; tries = r.tries }
        | some e ↦
            if is_permanent_smtp_response e
            then record { error = some e; tries = r.tries }
            else record { error = rest.error; tries = r.tries ++ rest.tries }
      ]

abbrev pub may_pass : NetError → Bool
may_pass e = elim (as_dns e) [ none ↦ false | some d ↦ d.is_timeout || d.is_temporary ]

-- `deliveryFailureCause`, on an error that is not nil
unfoldable pub delivery_failure_cause : Option NetError → NetError → NetError
delivery_failure_cause none fallback = fallback
delivery_failure_cause (some lookup) fallback =
    if is_permanent_smtp_response fallback || not (may_pass lookup) || not (is_network fallback)
    then fallback
    else mx_fallback lookup fallback

-- The work for one domain other than localhost, with the error of the lookup if there is one.
unfoldable pub deliver_domain :
    (Try → Option NetError) → Option NetError → Text → Text → List Text → Delivered
unfolding fail_over delivery_failure_cause
deliver_domain attempt lookup domain mx_host mx_hosts =
    let r = fail_over attempt domain none (if is_empty mx_hosts then mx_host ∷ [] else mx_hosts) in
    record {
      error = elim r.error [ none ↦ none | some e ↦ some (delivery_failure_cause lookup e) ];
      tries = r.tries;
    }
