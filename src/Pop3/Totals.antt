-- ===== src/Pop3/Totals.antt =====
-- listen/pop3_server/action.go: STAT against LIST.
use pmail.Base.{
  ◌+◌, ◌≤◌, ◌≡◌, refl, sym, ap, ◌∙◌, Bool, true, List, [], ◌∷◌, ◌++◌, map, append_assoc, arith,
  ◌==◌, length, length-append, select, select-append,
}
use pmail.Pop3.{Session}
use pmail.Pop3.Maildrop.{joined, descending, in_stat, in_list, stat, listed_mails}
use pmail.Smtp.Audit.{Email, Store}
use pmail.Tables.{UserEmail}

joined-append :
    (xs ys : List Email) (rows : List UserEmail)
    → joined (xs ++ ys) rows ≡ joined xs rows ++ joined ys rows
unfolding joined
joined-append [] ys rows = refl
joined-append (e ∷ es) ys rows =
    let own = map (λ (r : UserEmail). (e, r)) (select (λ r. r.email_id == e.id) rows) in
    ap (λ zs. own ++ zs) (joined-append es ys rows)
    ∙ sym (append_assoc own (joined es rows) (joined ys rows))

count-append :
    (p : Email × UserEmail → Bool) (xs ys : List Email) (rows : List UserEmail)
    → length (select p (joined (xs ++ ys) rows))
      ≡ length (select p (joined xs rows)) + length (select p (joined ys rows))
count-append p xs ys rows =
    ap (λ zs. length (select p zs)) (joined-append xs ys rows)
    ∙ ap length (select-append p (joined xs rows) (joined ys rows))
    ∙ length-append (select p (joined xs rows)) (select p (joined ys rows))

-- The order of the mails does not change how many rows are selected.
count-descending :
    (p : Email × UserEmail → Bool) (es : List Email) (rows : List UserEmail)
    → length (select p (joined (descending es) rows)) ≡ length (select p (joined es rows))
unfolding descending
count-descending p [] rows = refl
count-descending p (e ∷ es) rows = omega (
  arith,
  count-append p (descending es) (e ∷ []) rows,
  count-append p (e ∷ []) es rows,
  count-descending p es rows,
)

count-implied :
    (p q : Email × UserEmail → Bool) (xs : List (Email × UserEmail))
    → ((x : Email × UserEmail) → p x ≡ true → q x ≡ true)
    → length (select p xs) ≤ length (select q xs)
count-implied p q [] h = omega arith
count-implied p q (x ∷ xs) h = ground (arith, h x, count-implied p q xs h)

length-map {ℓ} : {A B : Type ℓ} (f : A → B) (xs : List A) → length (map f xs) ≡ length xs
length-map f [] = refl
length-map f (x ∷ xs) = ground (arith, length-map f xs)

-- LIST without a number lists at most as many mails as STAT counts.
listed_mails-stat : (s : Session) (t : Store) → length (listed_mails s t) ≤ (stat s t).0
unfolding listed_mails stat
listed_mails-stat s t = omega (
  arith,
  length-map (λ (x : Email × UserEmail). x.0)
      (select (in_list s.user_id) (joined (descending t.emails) t.user_emails)),
  count-descending (in_list s.user_id) t.emails t.user_emails,
  count-implied (in_list s.user_id) (in_stat s.user_id) (joined t.emails t.user_emails)
      (λ x h. ground (arith, h)),
)
