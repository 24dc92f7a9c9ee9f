-- ===== src/NetError.antt =====
-- The errors that delivery meets, as far as the code looks into them by `errors.As`: package
-- net/textproto, net, crypto/tls, crypto/x509, go-smtp, `fmt.Errorf("…%w")`, and
-- `temporaryMXFallbackError` of utils/send/send.go.
use pmail.Base.{ℕ, Bool, true, false, ◌&&◌, Option, none, some, List, leb, Text}

pub data NetError : Type 0 where
  -- *textproto.Error
  protocol : ℕ → Text → NetError
  -- *smtp.SMTPError of go-smtp
  smtp_status : ℕ → Text → NetError
  -- *net.DNSError: IsNotFound, IsTimeout, IsTemporary
  dns : Bool → Bool → Bool → NetError
  -- any other net.Error
  network : Text → NetError
  -- *tls.CertificateVerificationError, with the error that it holds
  certificate : NetError → NetError
  -- x509.HostnameError, with the names of its certificate if it holds one
  hostname : Option (List Text) → NetError
  plain : Text → NetError
  wrapped : Text → NetError → NetError
  -- `temporaryMXFallbackError`: the lookup's error, which it unwraps to, and the fallback's
  mx_fallback : NetError → NetError → NetError

-- `errors.As(err, &protocolErr)`, giving the code
unfoldable pub as_protocol : NetError → Option ℕ
as_protocol (protocol c s) = some c
as_protocol (certificate e) = as_protocol e
as_protocol (wrapped s e) = as_protocol e
as_protocol (mx_fallback e f) = as_protocol e
as_protocol _ = none

-- `errors.As(err, &smtpErr)`
unfoldable pub as_smtp : NetError → Option ℕ
as_smtp (smtp_status c s) = some c
as_smtp (certificate e) = as_smtp e
as_smtp (wrapped s e) = as_smtp e
as_smtp (mx_fallback e f) = as_smtp e
as_smtp _ = none

pub record DnsError : Type 0 where
  pub is_not_found : Bool
  pub is_timeout : Bool
  pub is_temporary : Bool

-- `errors.As(err, &dnsErr)`
unfoldable pub as_dns : NetError → Option DnsError
as_dns (dns f t p) = some (record { is_not_found = f; is_timeout = t; is_temporary = p })
as_dns (certificate e) = as_dns e
as_dns (wrapped s e) = as_dns e
as_dns (mx_fallback e f) = as_dns e
as_dns _ = none

-- `errors.As(err, &networkErr)` for the interface net.Error
unfoldable pub is_network : NetError → Bool
is_network (dns f t p) = true
is_network (network s) = true
is_network (certificate e) = is_network e
is_network (wrapped s e) = is_network e
is_network (mx_fallback e f) = is_network e
is_network _ = false

-- `errors.As(err, &certificateErr)`, giving the error that it holds
unfoldable pub as_certificate : NetError → Option NetError
as_certificate (certificate e) = some e
as_certificate (wrapped s e) = as_certificate e
as_certificate (mx_fallback e f) = as_certificate e
as_certificate _ = none

-- `errors.As(err, &hostnameErr)`, giving the names of a certificate that is not nil
unfoldable pub as_hostname : NetError → Option (List Text)
as_hostname (hostname names) = names
as_hostname (certificate e) = as_hostname e
as_hostname (wrapped s e) = as_hostname e
as_hostname (mx_fallback e f) = as_hostname e
as_hostname _ = none

-- A code from 500 to 599.
abbrev pub is_5xx : ℕ → Bool
is_5xx c = leb 500 c && leb c 599
