-- ===== src/Tests/Failing.antt =====
-- Witnesses for utils/send/send.go.
use pmail.Base.{Option, none, some, [], ◌∷◌, if◌then◌else◌, is_empty, codes}
use pmail.NetError.{NetError, protocol, plain, certificate, hostname}
use pmail.Sending.{Try, starttls, tls_587, tls_465, plain_25, fail_over}
use pmail.Sending.Probing.{Probed, fail_over-Probed}

-- A host whose certificate bears another name, and which refuses for good on port 465.
abbrev answers : Try → Option NetError
answers (starttls name, host) =
    if is_empty name
    then some (certificate (hostname (some (codes "*.x.org" ∷ []))))
    else some (plain (codes "timeout"))
answers (tls_587, host) = some (plain (codes "closed"))
answers (tls_465, host) = some (protocol 550 (codes "no"))
answers (plain_25, host) = none

fail_over-Probed_example :
    Probed answers (fail_over answers (codes "x.org") none (codes "a" ∷ codes "b" ∷ []))
fail_over-Probed_example =
    fail_over-Probed answers (codes "x.org") none (codes "a") (codes "b" ∷ [])
