-- ===== src/Sending/Domains/Sorted.antt =====
-- utils/send/send.go: the groups that the direct part of `doSend` sorts its recipients into.
use pmail.Base.{
  ℕ, ◌+◌, ◌≡◌, refl, sym, ap, ◌∙◌, ◌≢◌, ◌⊎◌, inl, inr, true, none, some, List, [], ◌∷◌, Bool-cases,
  Option-cases, and_true, In, In-append_left, In-last, Text, codes, text_eq, text_eq_iff,
}
use mathlib.Core.Path.{subst}
use pmail.Parsemail.{MailUser}
use pmail.Sending.Domains.{
  MxDomain, same_mx, Group, Plan, add_recipient, localhost, domain_of, Lookup, address_of,
  plan_lookup, plan_domain, plan_recipient, plan_all,
}

same_mx→eq : (a b : MxDomain) → same_mx a b ≡ true → a ≡ b
same_mx→eq a b e =
    let both = and_true (text_eq a.domain b.domain) (text_eq a.mx_host b.mx_host) e in
    cc ((text_eq_iff a.domain b.domain).0 both.0, (text_eq_iff a.mx_host b.mx_host).0 both.1)

-- A group with the key holds the recipient.
abbrev pub Has : MailUser → MxDomain → List Group → Type 0
Has s k [] = ⊥
Has s k ((k', tos) ∷ gs) = ((k ≡ k') × In s tos) ⊎ Has s k gs

add_recipient-Has : (k : MxDomain) (s : MailUser) (gs : List Group) → Has s k (add_recipient k s gs)
unfolding add_recipient
add_recipient-Has k s [] = inl (refl, inl refl)
add_recipient-Has k s ((k', tos) ∷ gs) = elim (Bool-cases (same_mx k k')) [
  | inl same ↦ rw same (inl (same_mx→eq k k' same, In-last s tos))
  | inr other ↦ rw other (inr (add_recipient-Has k s gs))
]

add_recipient-keeps :
    (k : MxDomain) (s s' : MailUser) (k' : MxDomain) (gs : List Group)
    → Has s' k' gs
    → Has s' k' (add_recipient k s gs)
unfolding add_recipient
add_recipient-keeps k s s' k' [] h = absurd h
add_recipient-keeps k s s' k' ((k'', tos) ∷ gs) h = elim (Bool-cases (same_mx k k'')) [
  | inl same ↦
      rw same
        (elim h [ inl (e, i) ↦ inl (e, In-append_left s' tos (s ∷ []) i) | inr later ↦ inr later ])
  | inr other ↦
      rw other
        (elim h [ inl here ↦ inl here | inr later ↦ inr (add_recipient-keeps k s s' k' gs later) ])
]

module _ (lookup : Lookup) where
  -- The key of a recipient of the domain: the local host for `test.domain` alone, and for every other
  -- domain what a lookup of it gives.
  abbrev pub KeyOf : Text → MxDomain → Type 0
  KeyOf domain k =
      ((domain ≡ codes "test.domain") × (k ≡ localhost))
      ⊎ ((domain ≢ codes "test.domain") × ((n : ℕ) × (k ≡ address_of domain (lookup n domain).0)))

  -- The recipient is in a group of its domain.
  abbrev pub Sorted : Text → MailUser → List Group → Type 0
  Sorted domain s gs = (k : MxDomain) × KeyOf domain k × Has s k gs

  pub plan_recipient_skips :
      (n : ℕ) (s : MailUser) (p : Plan) → domain_of s ≡ none → plan_recipient lookup n s p ≡ p
  unfolding plan_recipient plan_domain
  plan_recipient_skips n s p e = ap (plan_domain lookup n s p) e

  plan_domain_adds :
      (n : ℕ) (s : MailUser) (p : Plan) (domain : Text)
      → (k : MxDomain) × KeyOf domain k
        × ((plan_domain lookup n s p (some domain)).groups ≡ add_recipient k s p.groups)
  unfolding plan_domain plan_lookup
  plan_domain_adds n s p domain = elim (Bool-cases (text_eq domain (codes "test.domain"))) [
    | inl local ↦
        (localhost, inl ((text_eq_iff domain (codes "test.domain")).0 local, refl), rw local refl)
    | inr remote ↦
        let other : domain ≢ codes "test.domain" =
          λ e. absurd (cc ((text_eq_iff domain (codes "test.domain")).1 e, remote)) in
        (address_of domain (lookup n domain).0, inr (other, (n, refl)), rw remote refl)
  ]

  plan_recipient_adds :
      (n : ℕ) (s : MailUser) (p : Plan) (domain : Text)
      → domain_of s ≡ some domain
      → (k : MxDomain) × KeyOf domain k
        × ((plan_recipient lookup n s p).groups ≡ add_recipient k s p.groups)
  unfolding plan_recipient
  plan_recipient_adds n s p domain e =
      let (k, key, same) = plan_domain_adds n s p domain in
      (k, key, ap (λ o. (plan_domain lookup n s p o).groups) e ∙ same)

  plan_recipient-keeps :
      (n : ℕ) (s : MailUser) (p : Plan) (s' : MailUser) (k : MxDomain)
      → Has s' k p.groups
      → Has s' k (plan_recipient lookup n s p).groups
  plan_recipient-keeps n s p s' k h = elim (Option-cases (domain_of s)) [
    | inl e ↦ subst (λ q. Has s' k q.groups) (sym (plan_recipient_skips n s p e)) h
    | inr (domain, e) ↦
        let (k', key, same) = plan_recipient_adds n s p domain e in
        subst (Has s' k) (sym same) (add_recipient-keeps k' s s' k p.groups h)
  ]

  plan_all-keeps :
      (n : ℕ) (to : List MailUser) (p : Plan) (s : MailUser) (k : MxDomain)
      → Has s k p.groups
      → Has s k (plan_all lookup n to p).groups
  unfolding plan_all
  plan_all-keeps n [] p s k h = h
  plan_all-keeps n (t ∷ to) p s k h =
      plan_all-keeps (n + 1) to (plan_recipient lookup n t p) s k (plan_recipient-keeps n t p s k h)

  pub plan_all-Sorted :
      (n : ℕ) (to : List MailUser) (p : Plan) (s : MailUser) (domain : Text)
      → In s to
      → domain_of s ≡ some domain
      → Sorted domain s (plan_all lookup n to p).groups
  unfolding plan_all
  plan_all-Sorted n [] p s domain i e = absurd i
  plan_all-Sorted n (t ∷ to) p s domain (inl here) e =
      let (k, key, same) =
        plan_recipient_adds n t p domain (subst (λ x. domain_of x ≡ some domain) here e) in
      let q = plan_recipient lookup n t p in
      let added = subst (Has t k) (sym same) (add_recipient-Has k t p.groups) in
      (
        k,
        key,
        subst (λ x. Has x k (plan_all lookup (n + 1) to q).groups) (sym here)
            (plan_all-keeps (n + 1) to q t k added),
      )
  plan_all-Sorted n (t ∷ to) p s domain (inr i) e =
      plan_all-Sorted (n + 1) to (plan_recipient lookup n t p) s domain i e
