-- ===== src/Pop3/Maildrop.antt =====
-- listen/pop3_server/action.go: STAT, LIST and UIDL, with `Stat` and the rows of `GetEmailList` of
-- services/list. `to_int` is `cast.ToInt`, and `print` is `cast.ToString`.
use pmail.Base.{
  ℕ, ◌+◌, Bool, false, not, ◌&&◌, ◌||◌, Option, none, some, List, [], ◌∷◌, ◌++◌, map, ◌==◌,
  if◌then◌else◌, length, is_empty, select, Text,
}
use pmail.Base.Int.{ℤ, pos, pos_part, eqb_ℤ, ltb_ℤ}
use pmail.Detail.{email_detail}
use pmail.Pop3.{Session}
use pmail.Smtp.Audit.{Email, Store}
use pmail.Tables.{UserEmail, type_receive, status_del, inbox}

-- `email e left join user_email ue on e.id=ue.email_id`, where a condition on `ue` follows.
unfoldable pub joined : List Email → List UserEmail → List (Email × UserEmail)
joined [] rows = []
joined (e ∷ es) rows = map (λ r. (e, r)) (select (λ r. r.email_id == e.id) rows) ++ joined es rows

-- `order by e.id desc`, of a table listed by its ids.
unfoldable pub descending : List Email → List Email
descending [] = []
descending (e ∷ es) = descending es ++ e ∷ []

-- The condition of `Stat`.
abbrev pub in_stat : ℕ → Email × UserEmail → Bool
in_stat user_id (e, r) = r.user_id == user_id && (e.kind == 0 && not (r.status == status_del))

-- The condition of `genSQL` for the tag of LIST and UIDL.
abbrev pub in_list : ℕ → Email × UserEmail → Bool
in_list user_id (e, r) =
    r.user_id == user_id
    && (r.status == 0 && (e.kind == type_receive && (r.group_id == 0 || r.group_id == inbox)))

abbrev pub total : List (Email × UserEmail) → ℕ
total [] = 0
total ((e, r) ∷ xs) = e.size + total xs

-- `Stat`: the number of mails and their size
unfoldable pub stat : Session → Store → ℕ × ℕ
unfolding joined
stat s t =
    let found = select (in_stat s.user_id) (joined t.emails t.user_emails) in
    (length found, total found)

-- The mails of `GetEmailList` as LIST and UIDL ask for them, without a limit.
unfoldable pub listed_mails : Session → Store → List Email
unfolding joined descending
listed_mails s t =
    map (λ x. x.0) (select (in_list s.user_id) (joined (descending t.emails) t.user_emails))

-- `MailInfo`, with the size that stands for a missing one.
abbrev mail_info : Email → ℕ × ℕ
mail_info m = (m.id, if m.size == 0 then 9999 else m.size)

module _ (to_int : Text → ℤ) where
  -- `List`: `none` is a refusal. A message number that is not positive fits no mail.
  unfoldable pub list : Bool → Session → Text → Store → Option (List (ℕ × ℕ))
  unfolding listed_mails email_detail
  list select_fails s msg t =
      let id = to_int msg in
      let found = (email_detail select_fails false s.is_admin s.user_id (pos_part id) false t).0 in
      if is_empty msg
      then some (map mail_info (listed_mails s t))
      else if eqb_ℤ id (pos 0)
      then none
      else elim found [ none ↦ none | some m ↦ some (mail_info m ∷ []) ]

  -- `Uidl`
  unfoldable uidl : (ℕ → Text) → Session → Text → Store → List (ℕ × Text)
  unfolding listed_mails
  uidl print s msg t =
      let id = to_int msg in
      if ltb_ℤ (pos 0) id
      then (pos_part id, msg) ∷ []
      else map (λ m. (m.id, print m.id)) (listed_mails s t)
