-- ===== src/Sending/Domains/Covered.antt =====
-- utils/send/send.go: which recipients the direct part of `doSend` serves.
use pmail.Base.{
  ℕ, ◌+◌, ◌≡◌, refl, sym, ap, ◌∙◌, ◌⊎◌, inl, inr, Bool, true, Option, none, some, List, [], ◌∷◌,
  ◌++◌, map, if◌then◌else◌, Bool-cases, is_empty, all, All, In, Text, codes, text_eq,
}
use mathlib.Core.Path.{subst}
use pmail.NetError.{NetError}
use pmail.Parsemail.{MailUser}
use pmail.Sending.{Try, plain_25, deliver_domain, delivery_failure_cause}
use pmail.Sending.Probing.{Probes, fail_over-Probed}
use pmail.Sending.Domains.{
  MxDomain, Group, Plan, no_plan, domain_of, Lookup, plan_all, deliver_group, Failed, no_failure,
  record_failure, deliver_groups, report, send_direct, lookup_in, same_mx,
}
use pmail.Sending.Domains.Sorted.{Has, KeyOf, plan_all-Sorted, plan_recipient_skips}

is_empty-append :
    (xs ys : List Text) → is_empty (xs ++ ys) ≡ true → (is_empty xs ≡ true) × (is_empty ys ≡ true)
is_empty-append [] ys h = (refl, h)
is_empty-append (x ∷ xs) ys h = absurd (cc h)

map-empty : (tos : List MailUser) → is_empty (map (λ s. s.email_address) tos) ≡ true → tos ≡ []
map-empty [] h = refl
map-empty (t ∷ tos) h = absurd (cc h)

-- No address is left behind as failed only if every group went out or is empty.
deliver_groups-clean :
    (deliver : Group → Option NetError) (gs : List Group) (f : Failed)
    → is_empty (deliver_groups deliver gs f).addresses ≡ true
    → (is_empty f.addresses ≡ true) × All (λ g. (deliver g ≡ none) ⊎ (g.1 ≡ [])) gs
unfolding deliver_groups
deliver_groups-clean deliver [] f h = (h, tt)
deliver_groups-clean deliver (g ∷ gs) f h =
    let later = deliver_groups-clean deliver gs (record_failure g (deliver g) f) h in
    let now = record_failure-clean g (deliver g) f later.0 in (now.0, (now.1, later.1))
  where
    record_failure-clean :
        (g : Group) (o : Option NetError) (f : Failed)
        → is_empty (record_failure g o f).addresses ≡ true
        → (is_empty f.addresses ≡ true) × ((o ≡ none) ⊎ (g.1 ≡ []))
    record_failure-clean g none f h = (h, inl refl)
    record_failure-clean (k, tos) (some e) f h =
        let (before, now) = is_empty-append f.addresses (map (λ s. s.email_address) tos) h in
        (before, inr (map-empty tos now))

Has-All :
    (s : MailUser) (k : MxDomain) (gs : List Group) (P : Group → Type 0)
    → Has s k gs
    → All (λ g. P g ⊎ (g.1 ≡ [])) gs
    → (tos : List MailUser) × In s tos × P (k, tos)
Has-All s k [] P h all = absurd h
Has-All s k ((k', tos) ∷ gs) P (inr later) all = Has-All s k gs P later all.1
Has-All s k ((k', tos) ∷ gs) P (inl (e, i)) (inl good, rest) =
    (tos, i, subst (λ k. P (k, tos)) (sym e) good)
Has-All s k ((k', tos) ∷ gs) P (inl (e, i)) (inr empty, rest) = absurd (subst (In s) empty i)

deliver_groups-Has :
    (deliver : Group → Option NetError) (gs : List Group) (s : MailUser) (k : MxDomain)
    → (report (deliver_groups deliver gs no_failure)).0 ≡ none
    → Has s k gs
    → (tos : List MailUser) × In s tos × (deliver (k, tos) ≡ none)
unfolding report
deliver_groups-Has deliver gs s k h has =
    let failed = (deliver_groups deliver gs no_failure).addresses in
    Has-All s k gs (λ g. deliver g ≡ none) has
      (deliver_groups-clean deliver gs no_failure (reported _ failed h)).1
  where
    reported :
        (e : NetError) (xs : List Text)
        → (if is_empty xs then none else some e) ≡ none
        → is_empty xs ≡ true
    reported e [] h = refl
    reported e (x ∷ xs) h = absurd (cc h)

module _ (attempt : Try → Option NetError) where
  last-works : (ts : List Try) → Probes attempt ts none → (t : Try) × (attempt t ≡ none)
  last-works [] p = absurd p
  last-works (t ∷ []) p = (t, p)
  last-works (t ∷ t' ∷ ts) p = last-works (t' ∷ ts) p.1

  Probed-works :
      (lookup_error : Option NetError) (ts : List Try) (o : Option NetError)
      → Probes attempt ts o
      → (elim o as (λ _. Option NetError) [
        | none ↦ none
        | some e ↦ some (delivery_failure_cause lookup_error e)
      ])
        ≡ none
      → (t : Try) × (attempt t ≡ none)
  Probed-works lookup_error ts none p h = last-works ts p
  Probed-works lookup_error ts (some e) p h = absurd (cc h)

  -- A delivery to the hosts of a domain without an error had an attempt that worked.
  deliver_domain-works :
      (lookup_error : Option NetError) (domain mx_host : Text) (mx_hosts : List Text)
      → (deliver_domain attempt lookup_error domain mx_host mx_hosts).error ≡ none
      → (t : Try) × (attempt t ≡ none)
  unfolding deliver_domain
  deliver_domain-works lookup_error domain mx_host [] h =
      Probed-works lookup_error _ _ (fail_over-Probed attempt domain none mx_host []) h
  deliver_domain-works lookup_error domain mx_host (host ∷ hosts) h =
      Probed-works lookup_error _ _ (fail_over-Probed attempt domain none host hosts) h

deliver_group-works :
    (attempt : Group → Try → Option NetError) (p : Plan) (g : Group)
    → deliver_group attempt p g ≡ none
    → (t : Try) × (attempt g t ≡ none)
unfolding deliver_group
deliver_group-works attempt p g h = elim (Bool-cases (text_eq (g.0).domain (codes "localhost"))) [
  | inl local ↦ ((plain_25, (g.0).mx_host), subst (λ b. chosen b ≡ none) local h)
  | inr remote ↦ deliver_domain-works (attempt g) _ _ _ _ (subst (λ b. chosen b ≡ none) remote h)
]
  where
    chosen : Bool → Option NetError
    chosen b =
        if b
        then attempt g (plain_25, (g.0).mx_host)
        else (deliver_domain (attempt g) (lookup_in same_mx g.0 p.lookup_errors) (g.0).domain
            (g.0).mx_host
            (elim (lookup_in text_eq (g.0).domain p.failover) as (λ _. List Text) [
              | none ↦ []
              | some hs ↦ hs
            ])).error

module _ (lookup : Lookup) (attempt : Group → Try → Option NetError)
    (shuffle : List Group → List Group) where
  -- If the direct sending reports no error, and the groups are worked on in an order that leaves
  -- none out, then each recipient whose address has one "@" stands in a group for which one attempt at
  -- a server worked. The group is that of the local host for the domain `test.domain` and for no other;
  -- for every other domain it is that of the domain and the first host of a lookup of it, or, where the
  -- lookup gives none, that of the host guessed from the domain.
  pub send_direct-delivers :
      (to : List MailUser) (s : MailUser) (domain : Text)
      → ((k : MxDomain) (gs : List Group) → Has s k gs → Has s k (shuffle gs))
      → (send_direct lookup attempt shuffle to).0 ≡ none
      → In s to
      → domain_of s ≡ some domain
      → (k : MxDomain) × KeyOf lookup domain k
        × ((tos : List MailUser) × In s tos × (t : Try) × (attempt (k, tos) t ≡ none))
  unfolding send_direct
  send_direct-delivers to s domain kept fine i e =
      let p = plan_all lookup 0 to no_plan in
      let (k, key, has) = plan_all-Sorted lookup 0 to no_plan s domain i e in
      let (tos, there, delivered) =
        deliver_groups-Has (deliver_group attempt p) (shuffle p.groups) s k fine
          (kept k p.groups has) in
      let (t, works) = deliver_group-works attempt p (k, tos) delivered in
      (k, key, (tos, there, t, works))

  plan_all_skips :
      (n : ℕ) (to : List MailUser) (p : Plan)
      → All (λ s. domain_of s ≡ none) to
      → plan_all lookup n to p ≡ p
  unfolding plan_all
  plan_all_skips n [] p h = refl
  plan_all_skips n (s ∷ to) p (h, hs) =
      ap (plan_all lookup (n + 1) to) (plan_recipient_skips lookup n s p h)
      ∙ plan_all_skips (n + 1) to p hs

  -- A mail whose recipients all have an address without exactly one "@" is sent to nobody, and the
  -- direct sending reports no error, if the order of no groups is that of no groups.
  send_direct-silent :
      (to : List MailUser)
      → shuffle [] ≡ []
      → All (λ s. domain_of s ≡ none) to
      → send_direct lookup attempt shuffle to ≡ (none, [])
  unfolding send_direct deliver_groups report
  send_direct-silent to h hs =
      let run : Plan → _ =
        λ p. report (deliver_groups (deliver_group attempt p) (shuffle p.groups) no_failure) in
      ap run (plan_all_skips 0 to no_plan hs)
      ∙ ap (λ gs. report (deliver_groups (deliver_group attempt no_plan) gs no_failure)) h
