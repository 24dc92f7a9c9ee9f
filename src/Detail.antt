-- ===== src/Detail.antt =====
-- services/detail and services/auth: who reads a mail. Of the mail, its texts and attachments are left
-- out.
use pmail.Base.{
  ℕ, ◌≡◌, refl, ap, ◌∙◌, inl, Bool, true, false, not, ◌&&◌, ◌||◌, Option, none, some, List, [], ◌∷◌,
  ◌==◌, if◌then◌else◌, ==_iff, and_true, is_empty, select, All, All-select, select-All, In, In-All,
  In-selected,
}
use pmail.Smtp.Audit.{Email, Store}
use pmail.Tables.{UserEmail, first, update_where}

-- `Where("email_id = ? AND user_id = ?", …)`
abbrev own_rows : ℕ → ℕ → List UserEmail → List UserEmail
own_rows user_id email_id rows = select (λ r. r.email_id == email_id && r.user_id == user_id) rows

-- The zero of `response.EmailResponseData`, which `Get` leaves where no mail fits.
abbrev no_email : Email
no_email = record {
  id = 0;
  kind = 0;
  subject = [];
  from_address = [];
  size = 0;
  spf_check = 0;
  dkim_check = 0;
  send_user_id = 0;
  status = 0;
  error = none;
  msg_id = [];
}

unfoldable pub email_by_id : ℕ → List Email → Email
email_by_id id emails = elim (first (select (λ m. m.id == id) emails)) [
  | none ↦ no_email
  | some m ↦ m
]

abbrev ue_id : Option UserEmail → ℕ
ue_id none = 0
ue_id (some r) = r.id

abbrev unread : Option UserEmail → Bool
unread none = true
unread (some r) = r.is_read == 0

-- `GetEmailDetail`: the mail, or a refusal, and the tables. Where an administrator reads a mail of
-- others, the row to mark has id 0.
unfoldable pub email_detail : Bool → Bool → Bool → ℕ → ℕ → Bool → Store → Option Email × Store
unfolding email_by_id
email_detail select_fails update_fails is_admin user_id id mark_read s =
    let ue = first (own_rows user_id id s.user_emails) in
    let marked = record s {
      user_emails =
          update_where (λ r. r.id == ue_id ue) (λ r. record r { is_read = 1 }) s.user_emails;
    } in
    if ue_id ue == 0 && not is_admin then (none, s) else if select_fails then (none, s) else (
      some (email_by_id id s.emails),
      if mark_read && (unread ue && not update_fails) then marked else s,
    )

-- `HasAuth`
unfoldable pub has_auth : Bool → Bool → ℕ → ℕ → List UserEmail → Bool
has_auth select_fails is_admin user_id email_id rows =
    is_admin || (not select_fails && not (is_empty (own_rows user_id email_id rows)))

abbrev pub is_some {ℓ} : {A : Type ℓ} → Option A → Bool
is_some none = false
is_some (some a) = true

ue_id-zero :
    (rows : List UserEmail)
    → All (λ r. (r.id == 0) ≡ false) rows
    → (ue_id (first rows) == 0) ≡ is_empty rows
ue_id-zero [] h = refl
ue_id-zero (r ∷ rs) h = h.0

abbrev guarded : Bool → Bool → Bool → Email → Store → Store → Option Email × Store
guarded no_row is_admin select_fails m s t =
    if no_row && not is_admin then (none, s) else if select_fails then (none, s) else (some m, t)

guarded-is_some :
    (no_row is_admin : Bool) (m : Email) (s t : Store)
    → is_some (guarded no_row is_admin false m s t).0 ≡ (is_admin || not no_row)
guarded-is_some true true m s t = refl
guarded-is_some true false m s t = refl
guarded-is_some false true m s t = refl
guarded-is_some false false m s t = refl

guarded-row :
    (no_row select_fails : Bool) (m n : Email) (s t : Store)
    → (guarded no_row false select_fails m s t).0 ≡ some n
    → no_row ≡ false
guarded-row true b m n s t e = absurd cc
guarded-row false b m n s t e = refl

-- Where no query fails and no row has id 0, `GetEmailDetail` answers a mail exactly if `HasAuth` holds:
-- for an administrator, or where the user has a row of that mail.
pub email_detail-has_auth :
    (update_fails is_admin mark_read : Bool) (user_id id : ℕ) (s : Store)
    → All (λ r. (r.id == 0) ≡ false) s.user_emails
    → is_some (email_detail false update_fails is_admin user_id id mark_read s).0
      ≡ has_auth false is_admin user_id id s.user_emails
unfolding email_detail has_auth
email_detail-has_auth update_fails is_admin mark_read user_id id s h =
    guarded-is_some (ue_id (first (own_rows user_id id s.user_emails)) == 0) is_admin _ s _
    ∙ ap (λ b. is_admin || not b)
        (ue_id-zero (own_rows user_id id s.user_emails) (All-select _ _ s.user_emails h))

first-In : (rows : List UserEmail) → (ue_id (first rows) == 0) ≡ false → (r : UserEmail) × In r rows
first-In [] h = absurd cc
first-In (r ∷ rs) h = (r, inl refl)

-- A user who is no administrator reads a mail only with a row of it.
pub email_detail-owned :
    (select_fails update_fails mark_read : Bool) (user_id id : ℕ) (s : Store) (m : Email)
    → (email_detail select_fails update_fails false user_id id mark_read s).0 ≡ some m
    → (r : UserEmail) × In r s.user_emails × (r.email_id ≡ id) × (r.user_id ≡ user_id)
unfolding email_detail
email_detail-owned select_fails update_fails mark_read user_id id s m e =
    let p : UserEmail → Bool = λ r. r.email_id == id && r.user_id == user_id in
    let (r, k) = first-In (own_rows user_id id s.user_emails) (
      guarded-row (ue_id (first (own_rows user_id id s.user_emails)) == 0) select_fails _ m s _
        e) in
    let (a, b) =
      and_true (r.email_id == id) (r.user_id == user_id)
        (In-All _ r (own_rows user_id id s.user_emails) k (select-All p s.user_emails)) in
    (r, In-selected p r s.user_emails k, (==_iff r.email_id id).0 a, (==_iff r.user_id user_id).0 b)
