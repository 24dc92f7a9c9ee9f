-- ===== src/Tests/Searching.antt =====
-- Witnesses for services/list.
use pmail.Base.{ℕ, ◌≡◌, refl, Bool, false, ◌&&◌, none, [], ◌∷◌, leb, any, select, ascii}
use pmail.Base.Int.{pos}
use pmail.Search.{Item, seen, NumSet, Keys, Criteria, criteria, none_left, also_not, no_pair, pair}
use pmail.Search.Filters.{Mailbox}
use pmail.Search.Run.{search}
use pmail.Search.Distinct.{DistinctIds}
use pmail.Search.Sound.{search-meets}
use pmail.Search.Spec.{meets}

-- go-imap's number sets, for sets without `*`.
abbrev within : NumSet → ℕ → Bool
within s n = any (λ r. leb r.0 n && leb n r.1) s

abbrev no_keys : Keys
no_keys = record {
  uid = [];
  seq_num = [];
  since = none;
  before = none;
  sent_since = none;
  sent_before = none;
  header = [];
  body = [];
  text = [];
  flag = [];
  not_flag = [];
  larger = pos 0;
  smaller = pos 0;
}

abbrev item : ℕ → ℕ → Item
item id is_read = record {
  id = id;
  email_id = id;
  is_read = is_read;
  status = 0;
  serial_number = id;
}

abbrev mailbox : Mailbox
mailbox = record { items = item 1 1 ∷ item 2 0 ∷ item 3 1 ∷ []; emails = []; fetch_fails = false }

abbrev uid_range : ℕ → ℕ → Criteria
uid_range a b = criteria (record no_keys { uid = ((a, b) ∷ []) ∷ [] }) none_left no_pair

-- SEEN NOT UID 3 OR UID 1:2 UID 3
abbrev query : Criteria
query =
    criteria (record no_keys { flag = seen ∷ [] }) (also_not (uid_range 3 3) none_left)
      (pair (uid_range 1 2) (uid_range 3 3) no_pair)

mailbox-DistinctIds : DistinctIds mailbox.items
mailbox-DistinctIds = ((refl, (refl, tt)), ((refl, tt), (tt, tt)))

search-meets_example :
    search ascii within mailbox query ≡ select (meets ascii within mailbox query) mailbox.items
search-meets_example = search-meets ascii within mailbox mailbox-DistinctIds refl query
