-- ===== src/Sending/Domains.antt =====
-- utils/send/send.go: `Send`, `forwardData` and the direct part of `doSend`, which sorts the recipients
-- by domain. The lookup of a domain's servers is the parameter `lookup`, one answer for each call; the
-- groups are worked on at once, in the order that `shuffle` gives.
pub mod Covered
pub mod Sorted
use pmail.Base.{
  ℕ, ◌+◌, Bool, ◌&&◌, Option, none, some, List, [], ◌∷◌, ◌++◌, map, if◌then◌else◌, is_empty, Text,
  codes, text_eq, split,
}
use pmail.NetError.{NetError, plain}
use pmail.Parsemail.{MailUser}
use pmail.Sending.{Try, plain_25, deliver_domain}
use pmail.Smtp.Delivery.{DomainErrors, join}

-- `mxDomain`
pub record MxDomain : Type 0 where
  pub domain : Text
  pub mx_host : Text

abbrev pub same_mx : MxDomain → MxDomain → Bool
same_mx a b = text_eq a.domain b.domain && text_eq a.mx_host b.mx_host

-- `m[key]` and `m[key] = value`
abbrev pub lookup_in {ℓ κ} :
    {K : Type ℓ} {V : Type κ} → (K → K → Bool) → K → List (K × V) → Option V
lookup_in same k [] = none
lookup_in same k ((k', v) ∷ m) = if same k k' then some v else lookup_in same k m

abbrev pub put_in {ℓ κ} :
    {K : Type ℓ} {V : Type κ} → (K → K → Bool) → K → V → List (K × V) → List (K × V)
put_in same k v [] = (k, v) ∷ []
put_in same k v ((k', v') ∷ m) =
    let rest = put_in same k v m in if same k k' then (k', v) ∷ m else (k', v') ∷ rest

abbrev pub Group : Type 0
Group = MxDomain × List MailUser

-- `toByDomain`, `mxLookupErrors` and `mxFailoverMap`
pub record Plan : Type 0 where
  pub groups : List Group
  pub lookup_errors : List (MxDomain × NetError)
  pub failover : List (Text × List Text)

abbrev pub no_plan : Plan
no_plan = record { groups = []; lookup_errors = []; failover = [] }

-- `toByDomain[address] = append(toByDomain[address], s)`
unfoldable pub add_recipient : MxDomain → MailUser → List Group → List Group
add_recipient k s [] = (k, s ∷ []) ∷ []
add_recipient k s ((k', tos) ∷ gs) =
    let rest = add_recipient k s gs in
    if same_mx k k' then (k', tos ++ s ∷ []) ∷ gs else (k', tos) ∷ rest

abbrev pub localhost : MxDomain
localhost = record { domain = codes "localhost"; mx_host = codes "127.0.0.1" }

-- The domain of an address with one "@".
unfoldable pub domain_of : MailUser → Option Text
domain_of s = elim (split b'@' s.email_address) [
  | [] ↦ none
  | account ∷ rest ↦ elim rest [
    | [] ↦ none
    | domain ∷ more ↦ if is_empty more then some domain else none
  ]
]

-- The hosts that a lookup gives, in the order of preference, and its error.
abbrev pub Lookup : Type 0
Lookup = ℕ → Text → List Text × Option NetError

-- The key under which the recipients of a domain are sorted.
unfoldable pub address_of : Text → List Text → MxDomain
address_of domain [] = record {
  domain = codes "smtp." ++ domain;
  mx_host = codes "smtp." ++ domain;
}
address_of domain (host ∷ hosts) = record { domain = domain; mx_host = host }

-- The recipient of one turn of the loop, whose lookup gave an answer.
unfoldable pub plan_lookup : Text → MailUser → List Text × Option NetError → Plan → Plan
unfolding add_recipient address_of
plan_lookup domain s (hosts, e) p = record {
  groups = add_recipient (address_of domain hosts) s p.groups;
  lookup_errors = elim e [
    | none ↦ p.lookup_errors
    | some err ↦ put_in same_mx (address_of domain hosts) err p.lookup_errors
  ];
  failover = if is_empty hosts then p.failover else put_in text_eq domain hosts p.failover;
}

module _ (lookup : Lookup) where
  -- One turn of the loop, on the domain of the address.
  unfoldable pub plan_domain : ℕ → MailUser → Plan → Option Text → Plan
  unfolding plan_lookup
  plan_domain n s p none = p
  plan_domain n s p (some domain) =
      if text_eq domain (codes "test.domain")
      then record p { groups = add_recipient localhost s p.groups }
      else plan_lookup domain s (lookup n domain) p

  unfoldable pub plan_recipient : ℕ → MailUser → Plan → Plan
  unfolding plan_domain
  plan_recipient n s p = plan_domain n s p (domain_of s)

  -- The loop over the recipients.
  unfoldable pub plan_all : ℕ → List MailUser → Plan → Plan
  unfolding plan_recipient
  plan_all n [] p = p
  plan_all n (s ∷ to) p = plan_all (n + 1) to (plan_recipient n s p)

-- What is sent for one group: `attempt` answers for its recipients.
unfoldable pub deliver_group : (Group → Try → Option NetError) → Plan → Group → Option NetError
deliver_group attempt p g =
    let key = g.0 in
    let hosts : List Text = elim (lookup_in text_eq key.domain p.failover) [
      | none ↦ []
      | some hs ↦ hs
    ] in
    if text_eq key.domain (codes "localhost")
    then attempt g (plain_25, key.mx_host)
    else (deliver_domain (attempt g) (lookup_in same_mx key p.lookup_errors) key.domain key.mx_host
        hosts).error

-- `errEmailAddress` and `errMap`
pub record Failed : Type 0 where
  pub addresses : List Text
  pub errors : DomainErrors

abbrev pub no_failure : Failed
no_failure = record { addresses = []; errors = [] }

-- `recordFailure`
unfoldable pub record_failure : Group → Option NetError → Failed → Failed
record_failure g none f = f
record_failure g (some e) f = record {
  addresses = f.addresses ++ map (λ s. s.email_address) g.1;
  errors = put_in text_eq (g.0).domain (some e) f.errors;
}

-- The work on the groups, in an order.
unfoldable pub deliver_groups : (Group → Option NetError) → List Group → Failed → Failed
unfolding record_failure
deliver_groups deliver [] f = f
deliver_groups deliver (g ∷ gs) f = deliver_groups deliver gs (record_failure g (deliver g) f)

abbrev pub Sent : Type 0
Sent = Option NetError × DomainErrors

-- The end of `doSend`
unfoldable pub report : Failed → Sent
report f = (
  if is_empty f.addresses
      then none
      else some (plain (codes "以下收件人投递失败：" ++ join (codes ",") f.addresses)),
  f.errors,
)

-- `doSend` behind `tryRelay`
unfoldable pub send_direct :
    Lookup → (Group → Try → Option NetError) → (List Group → List Group) → List MailUser → Sent
unfolding plan_all deliver_group deliver_groups report
send_direct lookup attempt shuffle to =
    let p = plan_all lookup 0 to no_plan in
    report (deliver_groups (deliver_group attempt p) (shuffle p.groups) no_failure)
