-- ===== src/Outbound/Store.antt =====
-- services/outbound/config.go: `Get`, `GetPublic` and `Save` over the file config/outbound.json.
-- Which file operation fails is given by `Faults`; `encoding/json` is the record `Codec`.
use pmail.Base.{ℕ, Bool, not, Option, none, some, if◌then◌else◌, is_empty, Text, Unicode}
use pmail.Base.Int.{ℤ}
use pmail.Outbound.{
  Config, Invalid, Checked, accepted, refused, default_config, normalize_and_validate,
}

-- A file's content and permission bits.
pub record File : Type 0 where
  pub content : Text
  pub mode : ℕ

-- config/outbound.json and config/outbound.json.tmp.
pub record Disk : Type 0 where
  pub config_file : Option File
  pub tmp_file : Option File

-- Which calls fail in one run. A failing write leaves the temporary file in some state.
pub record Faults : Type 0 where
  pub read_fails : Bool
  pub mkdir_fails : Bool
  pub write_leaves : Option (Option File)
  pub chmod_tmp_fails : Bool
  pub rename_fails : Bool
  pub remove_fails : Bool
  pub chmod_fails : Bool

-- `json.MarshalIndent`, and `json.Unmarshal` onto a configuration that holds the defaults.
pub record Codec : Type 0 where
  pub marshal : Config → Option Text
  pub unmarshal : Text → Config → Option Config

pub data Failure : Type 0 where
  io_error json_error : Failure
  invalid : Invalid → Failure

pub data Read : Type 0 where
  config : Config → Read
  failed : Failure → Read

abbrev pub mode_0600 : ℕ
mode_0600 = 0o600

abbrev of_checked : Checked → Read
of_checked (accepted c) = config c
of_checked (refused why) = failed (invalid why)

-- Empty secrets keep their present values.
unfoldable pub keep_secrets : Config → Config → Config
keep_secrets current next = record next {
  password = if is_empty next.password then current.password else next.password;
  tencent_secret_key =
      if is_empty next.tencent_secret_key
      then current.tencent_secret_key
      else next.tencent_secret_key;
}

-- What is saved, before it is normalised.
abbrev pub merge : Bool → Config → Config → Config
merge keep_existing_secrets current next =
    if keep_existing_secrets then keep_secrets current next else next

-- `os.Remove(tmp)`, its error ignored.
abbrev remove_tmp : Faults → Disk → Disk
remove_tmp faults disk = if faults.remove_fails then disk else record disk { tmp_file = none }

-- `os.WriteFile(tmp, data, 0600)`: a file that is there keeps its mode.
abbrev written : Option File → Text → File
written none content = record { content = content; mode = mode_0600 }
written (some f) content = record f { content = content }

-- `os.Rename`, then `os.Chmod(path, 0600)`.
unfoldable pub install : Faults → Disk → File → Option Failure × Disk
install faults disk f =
    if faults.rename_fails
    then (some io_error, remove_tmp faults (record disk { tmp_file = some f }))
    else (
      (if faults.chmod_fails then some io_error else none),
      record { config_file = some f; tmp_file = none },
    )

-- `Save` from `os.MkdirAll` on, with the encoded configuration.
unfoldable pub write_config : Faults → Text → Disk → Option Failure × Disk
unfolding install
write_config faults content disk =
    if faults.mkdir_fails then (some io_error, disk) else elim faults.write_leaves [
      | some left ↦ (some io_error, record disk { tmp_file = left })
      | none ↦
          let f = written disk.tmp_file content in
          if faults.chmod_tmp_fails
          then (some io_error, remove_tmp faults (record disk { tmp_file = some f }))
          else install faults disk (record f { mode = mode_0600 })
    ]

module _ (codec : Codec) where
  -- `Save` from `json.MarshalIndent` on.
  unfoldable pub encode_and_write : Faults → Config → Disk → Option Failure × Disk
  unfolding write_config
  encode_and_write faults next disk = elim (codec.marshal next) [
    | none ↦ (some json_error, disk)
    | some content ↦ write_config faults content disk
  ]

  unfoldable pub save_checked : Faults → Checked → Disk → Option Failure × Disk
  unfolding encode_and_write
  save_checked faults (accepted next) disk = encode_and_write faults next disk
  save_checked faults (refused why) disk = (some (invalid why), disk)

module _ (u : Unicode) (parse_address : Text → Option Text) (codec : Codec) where
  -- The part of `readUnlocked` behind the reading of the file.
  unfoldable pub parse_config : Text → Read
  parse_config content = elim (codec.unmarshal content default_config) [
    | none ↦ failed json_error
    | some c ↦ of_checked (normalize_and_validate u parse_address c)
  ]

  -- `readUnlocked`, which `Get` runs under its lock.
  unfoldable pub read_unlocked : Faults → Disk → Read
  unfolding parse_config
  read_unlocked faults disk = elim disk.config_file [
    | none ↦ if faults.read_fails then failed io_error else config default_config
    | some f ↦ if faults.read_fails then failed io_error else parse_config f.content
  ]

  -- `Save`
  unfoldable pub save : Faults → Config → Bool → Disk → Option Failure × Disk
  unfolding read_unlocked keep_secrets save_checked
  save faults next keep_existing_secrets disk = elim (read_unlocked faults disk) [
    | failed why ↦ (some why, disk)
    | config current ↦
        let merged = merge keep_existing_secrets current next in
        save_checked codec faults (normalize_and_validate u parse_address merged) disk
  ]

-- `PublicConfig`
pub record PublicConfig : Type 0 where
  pub mode : Text
  pub host : Text
  pub port : ℤ
  pub username : Text
  pub password_set : Bool
  pub security : Text
  pub tencent_secret_id : Text
  pub tencent_secret_key_set : Bool
  pub tencent_region : Text
  pub tencent_from_address : Text
  pub tencent_trigger_type : ℤ

-- What `GetPublic` shows of the configuration that `Get` returns.
unfoldable pub public : Config → PublicConfig
public c = record {
  mode = c.mode;
  host = c.host;
  port = c.port;
  username = c.username;
  password_set = not (is_empty c.password);
  security = c.security;
  tencent_secret_id = c.tencent_secret_id;
  tencent_secret_key_set = not (is_empty c.tencent_secret_key);
  tencent_region = c.tencent_region;
  tencent_from_address = c.tencent_from_address;
  tencent_trigger_type = c.tencent_trigger_type;
}
