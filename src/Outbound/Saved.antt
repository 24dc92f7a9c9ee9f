-- ===== src/Outbound/Saved.antt =====
-- `Save` and `Get` together: what a save leaves on disk, and what is read back.
use pmail.Base.{
  ◌≡◌, refl, sym, ap, ◌∙◌, ◌≢◌, ◌⊎◌, inl, inr, Bool, false, Option, none, some, arith, is_empty,
  Text, Unicode,
}
use mathlib.Core.Path.{subst}
use pmail.Outbound.{
  Config, Checked, accepted, refused, default_config, normalize, normalize_and_validate,
}
use pmail.Outbound.Rules.{IsUsable, normalize_idem, normalize_and_validate-IsUsable}
use pmail.Outbound.Store.{
  Disk, Faults, Codec, Failure, Read, config, failed, mode_0600, parse_config, read_unlocked, merge,
  install, write_config, encode_and_write, save_checked, save, public,
}

-- The configuration file is untouched, or is the new content, readable by its owner alone.
abbrev Writes : Text → Disk → Option Failure × Disk → Type 0
Writes content disk (r, d) =
    ((r ≢ none) × (d.config_file ≡ disk.config_file))
    ⊎ ((d.config_file ≡ some (record { content = content; mode = mode_0600 }))
        × (d.tmp_file ≡ none))

install-Writes :
    (faults : Faults) (disk : Disk) (content : Text)
    → Writes content disk (install faults disk (record { content = content; mode = mode_0600 }))
unfolding install
install-Writes faults disk content = ground arith

write_config-Writes :
    (faults : Faults) (content : Text) (disk : Disk)
    → Writes content disk (write_config faults content disk)
unfolding write_config
write_config-Writes faults content disk = ground arith

module _ (u : Unicode) (parse_address : Text → Option Text) (codec : Codec) where
  -- The configuration file holds `c`, encoded, and `c` is normal and complete for its mode.
  pub record Installed (c : Config) (d : Disk) : Type 0 where
    pub content : Text
    pub encodes : codec.marshal c ≡ some content
    pub on_disk : d.config_file ≡ some (record { content = content; mode = mode_0600 })
    pub no_tmp : d.tmp_file ≡ none
    pub is_normal : normalize u c ≡ c
    pub usable : IsUsable parse_address c

  abbrev pub Kept : Disk → Option Failure × Disk → Type 0
  Kept disk (r, d) = (r ≢ none) × (d.config_file ≡ disk.config_file)

  encode_and_write-Installed :
      (faults : Faults) (c : Config) (disk : Disk)
      → normalize u c ≡ c
      → IsUsable parse_address c
      → Kept disk (encode_and_write codec faults c disk)
        ⊎ Installed c (encode_and_write codec faults c disk).1
  unfolding encode_and_write
  encode_and_write-Installed faults c disk n h = go (codec.marshal c) refl
    where
      go :
          (o : Option Text)
          → codec.marshal c ≡ o
          → Kept disk (elim o [
            | none ↦ (some Failure.json_error, disk)
            | some content ↦ write_config faults content disk
          ])
            ⊎ Installed c
                (elim o as (λ _. Option Failure × Disk) [
                  | none ↦ (some Failure.json_error, disk)
                  | some content ↦ write_config faults content disk
                ]).1
      go none e = inl ((λ x. cc), refl)
      go (some content) e = elim (write_config-Writes faults content disk) [
        | inl k ↦ inl k
        | inr w ↦ inr (record {
          content = content;
          encodes = e;
          on_disk = w.0;
          no_tmp = w.1;
          is_normal = n;
          usable = h;
        })
      ]

  save_checked-Installed :
      (faults : Faults) (next : Config) (disk : Disk)
      → let r = save_checked codec faults (normalize_and_validate u parse_address next) disk in
        Kept disk r ⊎ Installed (normalize u next) r.1
  unfolding save_checked
  save_checked-Installed faults next disk = go (normalize_and_validate u parse_address next) refl
    where
      go :
          (k : Checked)
          → normalize_and_validate u parse_address next ≡ k
          → Kept disk (save_checked codec faults k disk)
            ⊎ Installed (normalize u next) (save_checked codec faults k disk).1
      go (refused why) e = inl ((λ x. cc), refl)
      go (accepted c) e =
          let p = (normalize_and_validate-IsUsable parse_address u next c).0 e in
          subst
            (λ z.
              Kept disk (encode_and_write codec faults c disk)
              ⊎ Installed z (encode_and_write codec faults c disk).1)
            (sym p.0)
            (encode_and_write-Installed faults c disk
              (ap (normalize u) (sym p.0) ∙ normalize_idem u next ∙ p.0) p.1)

  -- Whichever file operation fails, a save leaves the configuration file as it was and reports an
  -- error, or it leaves there the whole normalised new settings (with the kept secrets), complete
  -- for their mode, readable by the owner alone, and no temporary file.
  pub save-Installed :
      (faults : Faults) (next : Config) (keep : Bool) (disk : Disk)
      → let r = save u parse_address codec faults next keep disk in
        Kept disk r
        ⊎ ((current : Config) × (read_unlocked u parse_address codec faults disk ≡ config current)
            × Installed (normalize u (merge keep current next)) r.1)
  unfolding save
  save-Installed faults next keep disk = go (read_unlocked u parse_address codec faults disk) refl
    where
      go :
          (k : Read)
          → read_unlocked u parse_address codec faults disk ≡ k
          → let r = elim k as (λ _. Option Failure × Disk) [
            | failed why ↦ (some why, disk)
            | config current ↦
                save_checked codec faults
                  (normalize_and_validate u parse_address (merge keep current next))
                  disk
          ] in
            Kept disk r
            ⊎ ((current : Config) × (read_unlocked u parse_address codec faults disk
                  ≡ config current)
                × Installed (normalize u (merge keep current next)) r.1)
      go (failed why) e = inl ((λ x. cc), refl)
      go (config current) e = elim (save_checked-Installed faults (merge keep current next) disk) [
        | inl k ↦ inl k
        | inr i ↦ inr (current, e, i)
      ]

  parse_config-Installed :
      (c : Config) {t : Text}
      → codec.unmarshal t default_config ≡ some c
      → normalize u c ≡ c
      → IsUsable parse_address c
      → parse_config u parse_address codec t ≡ config c
  unfolding parse_config
  parse_config-Installed c decoded n h =
      rw (decoded, (normalize_and_validate-IsUsable parse_address u c c).1 (n, h), parse_config)

  read_unlocked-Installed :
      (later : Faults) (c : Config) (d : Disk)
      → ((c : Config) (t : Text)
          → codec.marshal c ≡ some t
          → codec.unmarshal t default_config ≡ some c)
      → later.read_fails ≡ false
      → Installed c d
      → read_unlocked u parse_address codec later d ≡ config c
  unfolding read_unlocked
  read_unlocked-Installed later c d decodes readable i =
      rw i.on_disk (
        rw readable (parse_config-Installed c (decodes c i.content i.encodes) i.is_normal i.usable))

  -- After a save without error, a later read that does not fail gives back exactly the settings
  -- saved (normalised, with the kept secrets), given that the decoder reads what the encoder wrote.
  pub read_unlocked-save :
      (faults later : Faults) (next : Config) (keep : Bool) (disk : Disk)
      → ((c : Config) (t : Text)
          → codec.marshal c ≡ some t
          → codec.unmarshal t default_config ≡ some c)
      → (save u parse_address codec faults next keep disk).0 ≡ none
      → later.read_fails ≡ false
      → (current : Config) × (read_unlocked u parse_address codec faults disk ≡ config current)
        × (read_unlocked u parse_address codec later
              (save u parse_address codec faults next keep disk).1
            ≡ config (normalize u (merge keep current next)))
  read_unlocked-save faults later next keep disk decodes saved readable =
      elim (save-Installed faults next keep disk) [
        | inl k ↦ absurd (k.0 saved)
        | inr (current, e, i) ↦ (current, e, read_unlocked-Installed later _ _ decodes readable i)
      ]

-- What the settings page is shown does not depend on the secrets themselves, only on whether each
-- is set.
public_hides_secrets :
    (c : Config) (p p' k k' : Text)
    → is_empty p ≡ is_empty p'
    → is_empty k ≡ is_empty k'
    → public (record c { password = p; tencent_secret_key = k })
      ≡ public (record c { password = p'; tencent_secret_key = k' })
unfolding public
public_hides_secrets c p p' k k' h h' = cc
