-- ===== src/Sending/Cause.antt =====
-- `deliveryFailureCause` and the reply: a lookup of mail servers that may pass later makes no failure
-- permanent by the guess that replaced it.
use pmail.Base.{◌≡◌, refl, true, false, ◌||◌, none, some}
use pmail.NetError.{
  NetError, protocol, smtp_status, dns, network, certificate, hostname, plain, wrapped, mx_fallback,
  as_protocol, as_smtp, as_dns, is_network, DnsError,
}
use pmail.Sending.{is_permanent_smtp_response, may_pass, delivery_failure_cause}
use pmail.Smtp.Delivery.{is_permanent_delivery_error}

as_dns-no_status :
    (e : NetError) (d : DnsError) → as_dns e ≡ some d → (as_protocol e ≡ none) × (as_smtp e ≡ none)
unfolding as_dns as_protocol as_smtp
as_dns-no_status (protocol c s) d h = absurd cc
as_dns-no_status (smtp_status c s) d h = absurd cc
as_dns-no_status (dns f t p) d h = (refl, refl)
as_dns-no_status (network s) d h = absurd cc
as_dns-no_status (certificate e) d h = as_dns-no_status e d h
as_dns-no_status (hostname o) d h = absurd cc
as_dns-no_status (plain s) d h = absurd cc
as_dns-no_status (wrapped s e) d h = as_dns-no_status e d h
as_dns-no_status (mx_fallback e f) d h = as_dns-no_status e d h

may_pass-dns :
    (e : NetError) (d : DnsError)
    → as_dns e ≡ some d
    → (d.is_timeout || d.is_temporary) ≡ true
    → may_pass e ≡ true
may_pass-dns e d found passes = rw (may_pass, found) passes

mx_fallback_not_permanent :
    (lookup fallback : NetError) (d : DnsError)
    → as_dns lookup ≡ some d
    → d.is_not_found ≡ false
    → is_permanent_delivery_error (mx_fallback lookup fallback) ≡ false
unfolding is_permanent_delivery_error as_protocol as_smtp as_dns
mx_fallback_not_permanent lookup fallback d found there =
    let none_of = as_dns-no_status lookup d found in
    rw (is_permanent_delivery_error, none_of.0, none_of.1, found) there

-- If the lookup of a domain's servers timed out or failed for now, and did not find that the domain
-- is missing, then a network failure of the guessed server, even a name that does not exist, is
-- reported as one that may pass, unless that server itself refused for good.
delivery_failure_cause-may_pass :
    (lookup fallback : NetError) (d : DnsError)
    → as_dns lookup ≡ some d
    → (d.is_timeout || d.is_temporary) ≡ true
    → d.is_not_found ≡ false
    → is_network fallback ≡ true
    → is_permanent_smtp_response fallback ≡ false
    → is_permanent_delivery_error (delivery_failure_cause (some lookup) fallback) ≡ false
unfolding delivery_failure_cause
delivery_failure_cause-may_pass lookup fallback d found passes there net refused =
    rw (refused, net, may_pass-dns lookup d found passes)
      (mx_fallback_not_permanent lookup fallback d found there)
