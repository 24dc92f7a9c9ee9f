-- ===== src/Outbound.antt =====
-- services/outbound/config.go: the outbound delivery settings, how they are normalised and checked.
-- `net/mail.ParseAddress` is the parameter `parse_address`.
pub mod Rules
pub mod Store
pub mod Saved
use pmail.Base.{
  Bool, false, not, ◌&&◌, ◌||◌, Option, none, some, [], ◌∷◌, if◌then◌else◌, is_empty, Text, codes,
  text_eq, contains, trim_space, Unicode, to_lower,
}
use pmail.Base.Int.{ℤ, pos, ltb_ℤ, eqb_ℤ}

-- `Config`
pub record Config : Type 0 where
  pub mode : Text
  pub host : Text
  pub port : ℤ
  pub username : Text
  pub password : Text
  pub security : Text
  pub tencent_secret_id : Text
  pub tencent_secret_key : Text
  pub tencent_region : Text
  pub tencent_from_address : Text
  pub tencent_trigger_type : ℤ

abbrev pub mode_direct : Text
mode_direct = codes "direct"

abbrev pub mode_relay : Text
mode_relay = codes "relay"

abbrev pub mode_tencent_ses : Text
mode_tencent_ses = codes "tencent_ses"

abbrev pub security_starttls : Text
security_starttls = codes "starttls"

abbrev pub security_tls : Text
security_tls = codes "tls"

abbrev pub region_guangzhou : Text
region_guangzhou = codes "ap-guangzhou"

abbrev pub region_hongkong : Text
region_hongkong = codes "ap-hongkong"

-- `defaultConfig`
abbrev pub default_config : Config
default_config = record {
  mode = mode_direct;
  host = [];
  port = pos 587;
  username = [];
  password = [];
  security = security_starttls;
  tencent_secret_id = [];
  tencent_secret_key = [];
  tencent_region = region_guangzhou;
  tencent_from_address = [];
  tencent_trigger_type = pos 0;
}

-- The errors of `normalizeAndValidate`, in the order in which they are tested.
pub data Invalid : Type 0 where
  bad_mode no_host bad_port bad_security no_secret_id no_secret_key bad_region : Invalid
  no_from_address bad_from_address bad_trigger_type : Invalid

-- `if s == "" { s = d }`
unfoldable pub or_default : Text → Text → Text
or_default s d = elim s [ [] ↦ d | c ∷ cs ↦ c ∷ cs ]

unfoldable pub is_text : Text → Bool
is_text s = not (is_empty s)

-- `if cfg.Port == 0 { … }`
unfoldable pub default_port : ℤ → Text → ℤ
default_port port security =
    if eqb_ℤ port (pos 0)
    then (if text_eq security security_tls then pos 465 else pos 587)
    else port

-- The first half of `normalizeAndValidate`: trimming, lower case, defaults.
unfoldable pub normalize : Unicode → Config → Config
normalize u c =
    let security = or_default (to_lower u (trim_space c.security)) security_starttls in
    record {
      mode = or_default (to_lower u (trim_space c.mode)) mode_direct;
      host = trim_space c.host;
      port = default_port c.port security;
      username = trim_space c.username;
      password = c.password;
      security = security;
      tencent_secret_id = trim_space c.tencent_secret_id;
      tencent_secret_key = trim_space c.tencent_secret_key;
      tencent_region = or_default (to_lower u (trim_space c.tencent_region)) region_guangzhou;
      tencent_from_address = trim_space c.tencent_from_address;
      tencent_trigger_type = c.tencent_trigger_type;
    }

-- `parsed, err := mail.ParseAddress(…); err != nil || !strings.Contains(parsed.Address, "@")`
unfoldable pub is_address : (Text → Option Text) → Text → Bool
is_address parse_address s = elim (parse_address s) [
  | none ↦ false
  | some address ↦ contains address (codes "@")
]

unfoldable pub validate_relay : Config → Option Invalid
validate_relay c =
    if is_empty c.host
    then some no_host
    else if ltb_ℤ c.port (pos 1) || ltb_ℤ (pos 65535) c.port
    then some bad_port
    else if not (text_eq c.security security_starttls) && not (text_eq c.security security_tls)
    then some bad_security
    else none

unfoldable pub validate_tencent : (Text → Option Text) → Config → Option Invalid
validate_tencent parse_address c =
    if is_empty c.tencent_secret_id
    then some no_secret_id
    else if is_empty c.tencent_secret_key
    then some no_secret_key
    else if not (text_eq c.tencent_region region_guangzhou)
        && not (text_eq c.tencent_region region_hongkong)
    then some bad_region
    else if is_empty c.tencent_from_address
    then some no_from_address
    else if not (is_address parse_address c.tencent_from_address)
    then some bad_from_address
    else if not (eqb_ℤ c.tencent_trigger_type (pos 0)) && not (eqb_ℤ c.tencent_trigger_type (pos 1))
    then some bad_trigger_type
    else none

-- The second half of `normalizeAndValidate`: the checks, on a normalised configuration.
unfoldable pub validate : (Text → Option Text) → Config → Option Invalid
validate parse_address c =
    if not (text_eq c.mode mode_direct)
      && (not (text_eq c.mode mode_relay) && not (text_eq c.mode mode_tencent_ses))
    then some bad_mode
    else if text_eq c.mode mode_direct
    then none
    else if text_eq c.mode mode_relay
    then validate_relay c
    else validate_tencent parse_address c

pub data Checked : Type 0 where
  accepted : Config → Checked
  refused : Invalid → Checked

-- `normalizeAndValidate`. The callers drop the configuration that an error leaves behind.
unfoldable pub normalize_and_validate : Unicode → (Text → Option Text) → Config → Checked
normalize_and_validate u parse_address c =
    let c' = normalize u c in
    elim (validate parse_address c') [ none ↦ accepted c' | some why ↦ refused why ]
