-- ===== src/Search.antt =====
-- services/list/imap_search.go: IMAP SEARCH. The data, the filters and the search itself. A time is
-- an instant with the instant at which its day began in its location; the zero time is `none`.
-- `set_contains` is `Contains` of go-imap's number sets.
pub mod Filters
pub mod Run
pub mod Spec
pub mod Distinct
pub mod Sound
pub mod Load
pub mod StatusFlags
use pmail.Base.{
  ℕ, Bool, true, false, not, ◌&&◌, ◌||◌, Option, none, some, List, ltb, ◌==◌, is_empty, Text,
}
use pmail.Base.Int.{ℤ, pos, ltb_ℤ, eqb_ℤ}

-- One row of a mailbox: `response.UserEmailUIDData`.
pub record Item : Type 0 where
  pub id : ℕ
  pub email_id : ℕ
  pub is_read : ℕ
  pub status : ℕ
  pub serial_number : ℕ

pub record Time : Type 0 where
  pub instant : ℕ
  pub day_start : ℕ

-- The columns of `models.Email` that the search reads. `sql.NullString` is an option.
pub record Email : Type 0 where
  pub id : ℕ
  pub create_time : Time
  pub send_date : Time
  pub size : ℕ
  pub subject : Text
  pub from_address : Text
  pub from_name : Text
  pub to : Text
  pub cc : Text
  pub bcc : Text
  pub reply_to : Text
  pub sender : Text
  pub text : Option Text
  pub html : Option Text

-- imap.Flag
pub data Flag : Type 0 where
  seen answered flagged deleted draft junk : Flag
  keyword : Text → Flag

-- imap.UIDSet and imap.SeqSet: ranges from start to stop.
abbrev pub NumSet : Type 0
NumSet = List (ℕ × ℕ)

-- The fields of imap.SearchCriteria but its two recursive ones.
pub record Keys : Type 0 where
  pub uid : List NumSet
  pub seq_num : List NumSet
  pub since : Option Time
  pub before : Option Time
  pub sent_since : Option Time
  pub sent_before : Option Time
  pub header : List (Text × Text)
  pub body : List Text
  pub text : List Text
  pub flag : List Flag
  pub not_flag : List Flag
  pub larger : ℤ
  pub smaller : ℤ

-- imap.SearchCriteria, with its list `Not` and its list of pairs `Or`.
mutual
  pub data Criteria : Type 0 where
    criteria : Keys → Criterias → Pairs → Criteria

  pub data Criterias : Type 0 where
    none_left : Criterias
    also_not : Criteria → Criterias → Criterias

  pub data Pairs : Type 0 where
    no_pair : Pairs
    pair : Criteria → Criteria → Pairs → Pairs

-- `hasFlag`
unfoldable pub has_flag : Item → Flag → Bool
has_flag x seen = x.is_read == 1
has_flag x deleted = x.status == 3
has_flag x draft = x.status == 4
has_flag x junk = x.status == 5
has_flag x answered = false
has_flag x flagged = false
has_flag x (keyword k) = false

-- `truncateToDate`
unfoldable pub truncate_to_date : Time → Time
truncate_to_date t = record { instant = t.day_start; day_start = t.day_start }

-- `t.Before(u)`
abbrev pub before : Time → Time → Bool
before t u = ltb t.instant u.instant

-- `!criteria.Since.IsZero()` and the test under it; likewise for `Before`.
unfoldable pub passes_since : Time → Option Time → Bool
unfolding truncate_to_date
passes_since t none = true
passes_since t (some s) = not (before t (truncate_to_date s))

unfoldable pub passes_before : Time → Option Time → Bool
unfolding truncate_to_date
passes_before t none = true
passes_before t (some s) = before t (truncate_to_date s)

-- The size tests: a bound that is not positive is no bound.
unfoldable pub passes_larger : ℕ → ℤ → Bool
passes_larger size larger = not (ltb_ℤ (pos 0) larger) || ltb_ℤ larger (pos size)

unfoldable pub passes_smaller : ℕ → ℤ → Bool
passes_smaller size smaller = not (ltb_ℤ (pos 0) smaller) || ltb_ℤ (pos size) smaller

abbrev is_none {ℓ} : {A : Type ℓ} → Option A → Bool
is_none none = true
is_none (some a) = false

-- `needsEmailData`
unfoldable pub needs_email_data : Keys → Bool
needs_email_data k =
    not (is_none k.since)
    || not (is_none k.before)
    || not (is_none k.sent_since)
    || not (is_none k.sent_before)
    || not (is_empty k.header)
    || not (is_empty k.body)
    || not (is_empty k.text)
    || ltb_ℤ (pos 0) k.larger
    || ltb_ℤ (pos 0) k.smaller

-- The part of `isEmptyCriteria` that reads the keys.
unfoldable pub is_empty_keys : Keys → Bool
is_empty_keys k =
    is_empty k.uid
    && is_empty k.seq_num
    && is_none k.since
    && is_none k.before
    && is_none k.sent_since
    && is_none k.sent_before
    && is_empty k.header
    && is_empty k.body
    && is_empty k.text
    && is_empty k.flag
    && is_empty k.not_flag
    && eqb_ℤ k.larger (pos 0)
    && eqb_ℤ k.smaller (pos 0)

abbrev no_nots : Criterias → Bool
no_nots none_left = true
no_nots (also_not c cs) = false

abbrev pub no_ors : Pairs → Bool
no_ors no_pair = true
no_ors (pair a b ps) = false

-- `isEmptyCriteria`
unfoldable pub is_empty_criteria : Criteria → Bool
unfolding is_empty_keys
is_empty_criteria (criteria k nots ors) = is_empty_keys k && no_nots nots && no_ors ors
