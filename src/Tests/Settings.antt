-- ===== src/Tests/Settings.antt =====
-- Witnesses for services/outbound/config.go.
use pmail.Base.{
  ℕ, zero, suc, ◌≡◌, refl, ap, ◌∙◌, ◌⊎◌, true, false, Option, none, some, [], ◌∷◌, ◌++◌, arith,
  ◌==◌, if◌then◌else◌, length, Text, codes, text_eq, trim_space, to_lower, ascii,
}
use pmail.Base.Int.{ℤ, pos, negsuc}
use pmail.Outbound.{
  Config, default_config, validate, or_default, validate_relay, default_port, normalize,
  normalize_and_validate,
}
use pmail.Outbound.Saved.{Installed, Kept, save-Installed, read_unlocked-save}
use pmail.Outbound.Store.{Disk, Faults, Codec, config, merge, read_unlocked, save}
use pmail.Tests.Data.{relay_config}

abbrev any_address : Text → Option Text
any_address s = some s

abbrev works : Faults
works = record {
  read_fails = false;
  mkdir_fails = false;
  write_leaves = none;
  chmod_tmp_fails = false;
  rename_fails = false;
  remove_fails = false;
  chmod_fails = false;
}

abbrev empty_disk : Disk
empty_disk = record { config_file = none; tmp_file = none }

-- A coder that writes every configuration alike and reads back none.
abbrev blind : Codec
blind = record { marshal = λ c. some (codes "{}"); unmarshal = λ t c. none }

save-Installed_example :
    let r = save ascii any_address blind works relay_config true empty_disk in
    Kept ascii any_address blind empty_disk r
    ⊎ ((current : Config) × (read_unlocked ascii any_address blind works empty_disk
          ≡ config current)
        × Installed ascii any_address blind (normalize ascii (merge true current relay_config)) r.1)
save-Installed_example = save-Installed ascii any_address blind works relay_config true empty_disk

-- A coder that writes each text behind its length, and each number behind its sign.
abbrev put_text : Text → Text → Text
put_text t rest = length t ∷ (t ++ rest)

abbrev put_int : ℤ → Text → Text
put_int (pos n) rest = 0 ∷ n ∷ rest
put_int (negsuc n) rest = 1 ∷ n ∷ rest

abbrev head_or_0 : Text → ℕ
head_or_0 [] = 0
head_or_0 (c ∷ cs) = c

abbrev tail : Text → Text
tail [] = []
tail (c ∷ cs) = cs

abbrev take_text : ℕ → Text → Text
take_text zero s = []
take_text (suc n) s = head_or_0 s ∷ take_text n (tail s)

abbrev drop_text : ℕ → Text → Text
drop_text zero s = s
drop_text (suc n) s = drop_text n (tail s)

abbrev get_text : Text → Text
get_text s = take_text (head_or_0 s) (tail s)

abbrev behind_text : Text → Text
behind_text s = drop_text (head_or_0 s) (tail s)

abbrev get_int : Text → ℤ
get_int s = if head_or_0 s == 0 then pos (head_or_0 (tail s)) else negsuc (head_or_0 (tail s))

abbrev behind_int : Text → Text
behind_int s = tail (tail s)

abbrev from_port : Config → Text
from_port c = put_int c.port (put_int c.tencent_trigger_type [])

abbrev put_config : Config → Text
put_config c = put_text c.mode (
    put_text c.host (
      put_text c.username (
        put_text c.password (
          put_text c.security (
            put_text c.tencent_secret_id (
              put_text c.tencent_secret_key
                (put_text c.tencent_region (put_text c.tencent_from_address (from_port c)))))))))

abbrev get_config : Text → Config
get_config s0 =
    let s1 = behind_text s0 in
    let s2 = behind_text s1 in
    let s3 = behind_text s2 in
    let s4 = behind_text s3 in
    let s5 = behind_text s4 in
    let s6 = behind_text s5 in
    let s7 = behind_text s6 in
    let s8 = behind_text s7 in
    let s9 = behind_text s8 in
    record {
      mode = get_text s0;
      host = get_text s1;
      port = get_int s9;
      username = get_text s2;
      password = get_text s3;
      security = get_text s4;
      tencent_secret_id = get_text s5;
      tencent_secret_key = get_text s6;
      tencent_region = get_text s7;
      tencent_from_address = get_text s8;
      tencent_trigger_type = get_int (behind_int s9);
    }

abbrev plain_codec : Codec
plain_codec = record { marshal = λ c. some (put_config c); unmarshal = λ t c. some (get_config t) }

take_text-put : (t rest : Text) → take_text (length t) (t ++ rest) ≡ t
take_text-put [] rest = refl
take_text-put (c ∷ cs) rest = ground (arith, take_text-put cs rest)

drop_text-put : (t rest : Text) → drop_text (length t) (t ++ rest) ≡ rest
drop_text-put [] rest = refl
drop_text-put (c ∷ cs) rest = ground (arith, drop_text-put cs rest)

get_int-put :
    (i j : ℤ)
    → (get_int (put_int i (put_int j [])) ≡ i)
      × (get_int (behind_int (put_int i (put_int j []))) ≡ j)
get_int-put (pos i) (pos j) = (refl, refl)
get_int-put (pos i) (negsuc j) = (refl, refl)
get_int-put (negsuc i) (pos j) = (refl, refl)
get_int-put (negsuc i) (negsuc j) = (refl, refl)

get_config-put : (c : Config) → get_config (put_config c) ≡ c
get_config-put c =
    let ints = get_int-put c.port c.tencent_trigger_type in
    simp (take_text-put, drop_text-put) (cc (ints.0, ints.1))

plain_codec-decodes :
    (c : Config) (t : Text)
    → plain_codec.marshal c ≡ some t
    → plain_codec.unmarshal t default_config ≡ some c
plain_codec-decodes c t h = ap some (ap get_config (sym_text h) ∙ get_config-put c)
  where
    sym_text : some (put_config c) ≡ some t → t ≡ put_config c
    sym_text e = cc e

relay_config-saved :
    (save ascii any_address plain_codec works relay_config true empty_disk).0 ≡ none
unfolding save normalize_and_validate validate text_eq normalize or_default to_lower trim_space
    validate_relay default_port
relay_config-saved = refl

read_unlocked-save_example :
    (current : Config) × (read_unlocked ascii any_address plain_codec works empty_disk
      ≡ config current)
    × (read_unlocked ascii any_address plain_codec works
          (save ascii any_address plain_codec works relay_config true empty_disk).1
        ≡ config (normalize ascii (merge true current relay_config)))
read_unlocked-save_example =
    read_unlocked-save ascii any_address plain_codec works works relay_config true empty_disk
      plain_codec-decodes relay_config-saved refl
