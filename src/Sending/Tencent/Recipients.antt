-- ===== src/Sending/Tencent/Recipients.antt =====
-- relay.go: who receives a mail that `deliverTencentSESRaw` hands to Tencent's API.
use pmail.Base.{
  ◌≡◌, refl, sym, ap, ◌∙◌, ◌↔◌, ◌⊎◌, inl, inr, true, false, ◌||◌, List, [], ◌∷◌, ◌++◌, map,
  append_assoc, Bool-cases, or_true, or_false, any, In, Text, text_eq, text_eq_iff, Unicode,
  to_lower,
}
use mathlib.Core.Path.{subst}
use pmail.Outbound.{Config}
use pmail.Parsemail.{MailUser}
use pmail.Sending.Tencent.{SesMail, Request, email_addresses, request_of, key_of, hidden, raw_mail}
use pmail.Sending.Tencent.Keys.{
  keys, lower-email_addresses, keys-In, is_blank, keys_blank, keys_full, keys-full,
  email_addresses-append, split_keys, join_keys,
}

-- All addresses of a request.
abbrev pub all_addresses : Request → List Text
all_addresses q = q.destination ++ (q.cc ++ q.bcc)

any-In : (k : Text) (xs : List Text) → any (text_eq k) xs ≡ true → In k xs
any-In k [] h = absurd (cc h)
any-In k (x ∷ xs) h = elim (Bool-cases (text_eq k x)) [
  | inl e ↦ inl ((text_eq_iff k x).0 e)
  | inr n ↦ inr (any-In k xs (subst (λ b. (b || any (text_eq k) xs) ≡ true) n h))
]

module _ (u : Unicode) where
  hidden_skips :
      (visible : List Text) (r : MailUser) (rs : List MailUser)
      → (is_blank r || any (text_eq (key_of u r)) visible) ≡ true
      → hidden u visible (r ∷ rs) ≡ hidden u visible rs
  unfolding hidden is_blank
  hidden_skips visible r rs e = rw e refl

  hidden_adds :
      (visible : List Text) (r : MailUser) (rs : List MailUser)
      → (is_blank r || any (text_eq (key_of u r)) visible) ≡ false
      → hidden u visible (r ∷ rs) ≡ r ∷ hidden u visible rs
  unfolding hidden is_blank
  hidden_adds visible r rs e = rw e refl

  -- A recipient is among the visible keys, or hidden, or has a blank address.
  hidden-In :
      (k : Text) (visible : List Text) (rs : List MailUser)
      → In k (keys u rs)
      → In k visible ⊎ In k (keys u (hidden u visible rs))
  unfolding keys hidden
  hidden-In k visible [] i = absurd i
  hidden-In k visible (r ∷ rs) i =
      let blank = is_blank r in
      let seen = any (text_eq (key_of u r)) visible in
      elim (Bool-cases (blank || seen)) [
        | inl skip ↦
            let shut = ap (keys u) (sym (hidden_skips visible r rs skip)) in
            elim (or_true blank seen skip) [
              | inl e ↦
                  move visible shut (hidden-In k visible rs (subst (In k) (keys_blank u r rs e) i))
              | inr (full, shown) ↦ elim (subst (In k) (keys_full u r rs full) i) [
                | inl same ↦
                    inl (subst (λ x. In x visible) (sym same) (any-In (key_of u r) visible shown))
                | inr later ↦ move visible shut (hidden-In k visible rs later)
              ]
            ]
        | inr add ↦
            let full = (or_false blank seen add).0 in
            let shut =
              sym (keys_full u r (hidden u visible rs) full)
              ∙ ap (keys u) (sym (hidden_adds visible r rs add)) in
            elim (subst (In k) (keys_full u r rs full) i) [
              | inl same ↦ inr (subst (In k) shut (inl same))
              | inr later ↦ move visible shut (widen visible _ _ (hidden-In k visible rs later))
            ]
      ]
    where
      move : {xs ys : List Text} (vs : List Text) → xs ≡ ys → In k vs ⊎ In k xs → In k vs ⊎ In k ys
      move vs e (inl j) = inl j
      move vs e (inr j) = inr (subst (In k) e j)

      widen :
          (vs : List Text) (x : Text) (xs : List Text) → In k vs ⊎ In k xs → In k vs ⊎ In k (x ∷ xs)
      widen vs x xs (inl j) = inl j
      widen vs x xs (inr j) = inr (inr j)

  hidden-among :
      (k : Text) (visible : List Text) (rs : List MailUser)
      → In k (keys u (hidden u visible rs))
      → In k (keys u rs)
  unfolding hidden
  hidden-among k visible [] i = i
  hidden-among k visible (r ∷ rs) i =
      let seen = any (text_eq (key_of u r)) visible in
      let blank = is_blank r in
      elim (Bool-cases (blank || seen)) [
        | inl skip ↦
            later
              (hidden-among k visible rs
                (subst (In k) (ap (keys u) (hidden_skips visible r rs skip)) i))
              (Bool-cases blank)
        | inr add ↦
            let full = (or_false blank seen add).0 in
            let opened =
              ap (keys u) (hidden_adds visible r rs add)
              ∙ keys_full u r (hidden u visible rs) full in
            subst (In k) (sym (keys_full u r rs full)) (elim (subst (In k) opened i) [
              | inl same ↦ inl same
              | inr j ↦ inr (hidden-among k visible rs j)
            ])
      ]
    where
      later : In k (keys u rs) → (is_blank r ≡ true) ⊎ (is_blank r ≡ false) → In k (keys u (r ∷ rs))
      later j (inl e) = subst (In k) (sym (keys_blank u r rs e)) j
      later j (inr e) = subst (In k) (sym (keys_full u r rs e)) (inr j)

  hidden-same :
      (k : Text) (shown recipients : List MailUser)
      → In k (keys u (shown ++ hidden u (map (key_of u) shown) recipients))
        ↔ In k (keys u (shown ++ recipients))
  hidden-same k shown recipients =
      let visible = map (key_of u) shown in
      let unseen = hidden u visible recipients in
      (
        λ i. join_keys u k shown recipients (elim (split_keys u k shown unseen i) [
          | inl j ↦ inl j
          | inr j ↦ inr (hidden-among k visible recipients j)
        ]),
        λ i. join_keys u k shown unseen (elim (split_keys u k shown recipients i) [
          | inl j ↦ inl j
          | inr j ↦ elim (hidden-In k visible recipients j) [
            | inl seen ↦ inl (keys-In u k shown (keys-full u k recipients j) seen)
            | inr added ↦ inr added
          ]
        ]),
      )

  -- For any mail that was parsed and any recipients of the envelope: the request to the API is for
  -- those users of the header's To and Cc and of the envelope, without case and outer spaces, whose
  -- address is not blank, and for nobody else. So it goes to all users of To and Cc, whether or not the
  -- envelope names them.
  pub raw_mail-recipients :
      (base64 : Text → Text) (cfg : Config) (m : SesMail) (recipients : List MailUser)
      (envelope_from : Text) (sender : MailUser) (k : Text)
      → let q = request_of base64 cfg (raw_mail u m recipients envelope_from) sender in
        In k (map (to_lower u) (all_addresses q)) ↔ In k (keys u ((m.to ++ m.cc) ++ recipients))
  unfolding request_of raw_mail
  raw_mail-recipients base64 cfg m recipients envelope_from sender k =
      let shown = m.to ++ m.cc in
      let unseen = hidden u (map (key_of u) shown) recipients in
      let gathered =
        ap (λ l. email_addresses m.to ++ l) (sym (email_addresses-append m.cc unseen))
        ∙ sym (email_addresses-append m.to (m.cc ++ unseen))
        ∙ ap email_addresses (sym (append_assoc m.to m.cc unseen)) in
      subst (λ l. In k l ↔ In k (keys u (shown ++ recipients)))
        (sym (ap (map (to_lower u)) gathered ∙ lower-email_addresses u (shown ++ unseen)))
        (hidden-same k shown recipients)
