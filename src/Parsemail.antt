-- ===== src/Parsemail.antt =====
-- dto/parsemail/email.go: mail addresses. What the code takes from net/mail, mime, regexp and
-- bluemonday is the record `MailLib`.
pub mod Reader
use pmail.Base.{
  Option, none, some, [], ◌∷◌, ◌==◌, if◌then◌else◌, is_empty, Text, codes, trim_space, split,
  trim_set,
}

-- `User`
pub record MailUser : Type 0 where
  pub email_address : Text
  pub name : Text

-- mail.ParseAddress (address and name), the match of `emailAddressRe` (whole, group),
-- mime.WordDecoder.Decode, and bluemonday's strict policy
pub record MailLib : Type 0 where
  pub parse_address : Text → Option (Text × Text)
  pub find_address : Text → Option (Text × Text)
  pub decode_word : Text → Option Text
  pub sanitize : Text → Text
  pub remove_all : Text → Text → Text

-- `GetDomainAccount`: the account and the domain.
unfoldable pub get_domain_account : MailUser → Text × Text
get_domain_account u = elim (split b'@' u.email_address) [
  | [] ↦ ([], [])
  | account ∷ rest ↦ elim rest [ [] ↦ ([], []) | domain ∷ more ↦ (account, domain) ]
]

module _ (lib : MailLib) where
  abbrev decode_or : Text → Text → Text
  decode_or s other = elim (lib.decode_word s) [ none ↦ other | some d ↦ d ]

  unfoldable pub parsed_user : Text × Text → MailUser
  parsed_user (address, raw_name) =
      let name = trim_space raw_name in
      record {
        email_address = trim_space address;
        name = if is_empty name then [] else lib.sanitize (decode_or name name);
      }

  unfoldable pub matched_user : Text → Option (Text × Text) → MailUser
  matched_user s none = record { email_address = lib.sanitize s; name = [] }
  matched_user s (some (whole, address)) =
      let part = trim_set (λ c. c == b'"') (trim_space (lib.remove_all whole s)) in
      record {
        email_address = trim_space address;
        name = elim (lib.decode_word (lib.remove_all (codes "\"") part)) [
          | some decoded ↦ lib.sanitize (trim_space decoded)
          | none ↦ lib.sanitize (trim_space part)
        ];
      }

  -- `buildUser`, which `BuilderUser` calls
  unfoldable pub build_user : Text → MailUser
  unfolding parsed_user matched_user
  build_user line =
      let s = trim_space line in
      if is_empty s then record { email_address = []; name = [] } else elim (lib.parse_address s) [
        | some found ↦ parsed_user found
        | none ↦ matched_user s (lib.find_address s)
      ]
