-- ===== src/Imap/Fetching/Addresses.antt =====
-- listen/imap_server/session_fetch.go: the addresses of an envelope.
use pmail.Base.{
  ◌≡◌, refl, ap, ◌⊎◌, inl, inr, Bool, true, false, not, Option, none, some, List, [], ◌∷◌, ◌++◌,
  ◌==◌, if◌then◌else◌, ==_iff, is_empty, any, select, Text,
}
use pmail.Imap.Fetching.{Address, address_parts, users_to_addresses}
use pmail.Parsemail.{MailUser}
use pmail.Smtp.Session.{cut_last_at}

-- The address reads back from its two parts, the second of which holds no "@"; or it has no "@".
pub record ReadsBack (address : Text) (a : Address) : Type 0 where
  pub whole : (address ≡ a.mailbox ++ b'@' ∷ a.host) ⊎ ((address ≡ a.mailbox) × (a.host ≡ []))
  pub last : any (λ c. c == b'@') a.host ≡ false

-- What a cut at the last "@" gives.
abbrev Cuts : Text → Option (Text × Text) → Type 0
Cuts s none = any (λ c. c == b'@') s ≡ false
Cuts s (some parts) = (s ≡ parts.0 ++ b'@' ∷ parts.1) × (any (λ c. c == b'@') parts.1 ≡ false)

cut_last_at-Cuts : (s : Text) → Cuts s (cut_last_at s)
unfolding cut_last_at
cut_last_at-Cuts [] = refl
cut_last_at-Cuts (c ∷ cs) = go (cut_last_at cs) (cut_last_at-Cuts cs)
  where
    at :
        (b : Bool)
        → (c == b'@') ≡ b
        → any (λ c. c == b'@') cs ≡ false
        → Cuts (c ∷ cs) (if b then some ([], cs) else none)
    at true e h = (ap (λ x. x ∷ cs) ((==_iff c b'@').0 e), h)
    at false e h = rw e h

    go :
        (o : Option (Text × Text))
        → Cuts cs o
        → Cuts (c ∷ cs) (elim o [
          | some (a, b) ↦ some (c ∷ a, b)
          | none ↦ if c == b'@' then some ([], cs) else none
        ])
    go none h = at (c == b'@') refl h
    go (some (a, b)) (h, k) = (ap (λ l. c ∷ l) h, k)

address_parts-ReadsBack : (name s : Text) → ReadsBack s (address_parts name s)
unfolding address_parts
address_parts-ReadsBack name s = go (cut_last_at s) (cut_last_at-Cuts s)
  where
    go :
        (o : Option (Text × Text))
        → Cuts s o
        → ReadsBack s (elim o as (λ _. Address) [
          | none ↦ record { name = name; mailbox = s; host = [] }
          | some parts ↦ record { name = name; mailbox = parts.0; host = parts.1 }
        ])
    go none h = record { whole = inr (refl, refl); last = refl }
    go (some parts) (h, k) = record { whole = inl h; last = k }

-- The users with an address, in their order.
abbrev pub addressed : List MailUser → List MailUser
addressed rs = select (λ r. not (is_empty r.email_address)) rs

-- Each address reads back from its place in the list.
abbrev pub AllReadBack : List MailUser → List Address → Type 0
AllReadBack [] [] = Unit
AllReadBack (r ∷ rs) (a ∷ more) =
    (a.name ≡ r.name) × ReadsBack r.email_address a × AllReadBack rs more
AllReadBack _ _ = ⊥

name-kept : (name s : Text) → (address_parts name s).name ≡ name
unfolding address_parts
name-kept name s = go (cut_last_at s)
  where
    go :
        (o : Option (Text × Text))
        → (elim o as (λ _. Address) [
          | none ↦ record { name = name; mailbox = s; host = [] }
          | some parts ↦ record { name = name; mailbox = parts.0; host = parts.1 }
        ]).name
          ≡ name
    go none = refl
    go (some parts) = refl

-- The addresses of an envelope are those of the users that have one, in their order: each has the
-- user's name, and its two parts with an "@" between them are the user's address, the second holding no
-- "@"; or the address has no "@" and is the first part.
pub users_to_addresses-AllReadBack :
    (rs : List MailUser) → AllReadBack (addressed rs) (users_to_addresses rs)
unfolding users_to_addresses
users_to_addresses-AllReadBack [] = tt
users_to_addresses-AllReadBack (r ∷ rs) =
    go (is_empty r.email_address) (users_to_addresses-AllReadBack rs)
  where
    go :
        (b : Bool)
        → AllReadBack (addressed rs) (users_to_addresses rs)
        → AllReadBack (if not b then r ∷ addressed rs else addressed rs) (
            if b
            then users_to_addresses rs
            else address_parts r.name r.email_address ∷ users_to_addresses rs)
    go true later = later
    go false later =
        (name-kept r.name r.email_address, address_parts-ReadsBack r.name r.email_address, later)
