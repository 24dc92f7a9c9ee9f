-- ===== src/Outbound/Rules.antt =====
-- What `normalizeAndValidate` guarantees of a configuration that it accepts.
use pmail.Base.{
  ◌≡◌, refl, sym, ap, ◌∙◌, ◌≢◌, ◌↔◌, ◌⊎◌, true, Option, none, some, [], ◌∷◌, arith, all, Text,
  text_eq_iff, trim_space, Unicode, to_lower, to_lower_idem, trim_space-to_lower, is_lower_ascii,
  to_lower-is_lower_ascii, trim_space_idem,
}
use pmail.Base.Int.{ℤ, pos, ◌≤ℤ◌}
use mathlib.Core.Path.{subst}
use pmail.Outbound.{
  Config, Invalid, Checked, accepted, refused, normalize, validate, validate_relay,
  validate_tencent, normalize_and_validate, is_address, or_default, default_port, mode_direct,
  mode_relay, mode_tencent_ses, security_starttls, security_tls, region_guangzhou, region_hongkong,
}

or_default-eq_self : (s d : Text) → s ≢ [] → or_default s d ≡ s
unfolding or_default
or_default-eq_self [] d h = absurd (h refl)
or_default-eq_self (c ∷ cs) d h = refl

-- A default that is normal stays under a second normalisation.
or_default_idem :
    (f : Text → Text) (s d : Text)
    → f (f s) ≡ f s
    → f d ≡ d
    → or_default (f (or_default (f s) d)) d ≡ or_default (f s) d
unfolding or_default
or_default_idem f s d h k = go (f s) h
  where
    go : (t : Text) → f t ≡ t → or_default (f (or_default t d)) d ≡ or_default t d
    go [] e = rw k (idem d)
      where
        idem : (x : Text) → or_default x x ≡ x
        idem [] = refl
        idem (c ∷ cs) = refl
    go (c ∷ cs) e = rw e

module _ (u : Unicode) where
  abbrev lower_trim : Text → Text
  lower_trim s = to_lower u (trim_space s)

  lower_trim_idem : (s : Text) → lower_trim (lower_trim s) ≡ lower_trim s
  lower_trim_idem s =
      ap (to_lower u) (trim_space-to_lower u (trim_space s))
      ∙ to_lower_idem u (trim_space (trim_space s))
      ∙ ap (to_lower u) (trim_space_idem s)

  lower_trim-literal :
      (s : Text) → all is_lower_ascii s ≡ true → trim_space s ≡ s → lower_trim s ≡ s
  lower_trim-literal s h k = ap (to_lower u) k ∙ to_lower-is_lower_ascii u s h

  normal_default :
      (s d : Text)
      → all is_lower_ascii d ≡ true
      → trim_space d ≡ d
      → or_default (lower_trim (or_default (lower_trim s) d)) d ≡ or_default (lower_trim s) d
  normal_default s d h k =
      or_default_idem lower_trim s d (lower_trim_idem s) (lower_trim-literal d h k)

  default_port_idem : (p : ℤ) (s : Text) → default_port (default_port p s) s ≡ default_port p s
  unfolding default_port
  default_port_idem p s = ground arith

  -- A configuration that has been normalised is not changed by normalising it again, as happens
  -- when it is written and read back.
  pub normalize_idem : (c : Config) → normalize u (normalize u c) ≡ normalize u c
  unfolding normalize trim_space
  normalize_idem c = cc (
    normal_default c.mode mode_direct refl refl,
    normal_default c.security security_starttls refl refl,
    normal_default c.tencent_region region_guangzhou refl refl,
    trim_space_idem c.host,
    trim_space_idem c.username,
    trim_space_idem c.tencent_secret_id,
    trim_space_idem c.tencent_secret_key,
    trim_space_idem c.tencent_from_address,
    default_port_idem c.port (or_default (lower_trim c.security) security_starttls),
  )

-- What delivery through a relay needs.
pub record RelayReady (c : Config) : Type 0 where
  pub has_host : c.host ≢ []
  pub port_ge : pos 1 ≤ℤ c.port
  pub port_le : c.port ≤ℤ pos 65535
  pub known_security : (c.security ≡ security_starttls) ⊎ (c.security ≡ security_tls)

validate_relay-RelayReady : (c : Config) → (validate_relay c ≡ none) ↔ RelayReady c
unfolding validate_relay
validate_relay-RelayReady c =
    let tls = text_eq_iff c.security security_tls in
    let starttls = text_eq_iff c.security security_starttls in
    (λ h. ground (arith, starttls, tls), λ r. ground (arith, starttls, tls))

module _ (parse_address : Text → Option Text) where
  -- What delivery through Tencent SES needs.
  pub record TencentReady (c : Config) : Type 0 where
    pub has_id : c.tencent_secret_id ≢ []
    pub has_key : c.tencent_secret_key ≢ []
    pub known_region : (c.tencent_region ≡ region_guangzhou) ⊎ (c.tencent_region ≡ region_hongkong)
    pub has_from : c.tencent_from_address ≢ []
    pub parses : is_address parse_address c.tencent_from_address ≡ true
    pub known_trigger : (c.tencent_trigger_type ≡ pos 0) ⊎ (c.tencent_trigger_type ≡ pos 1)

  validate_tencent-TencentReady :
      (c : Config) → (validate_tencent parse_address c ≡ none) ↔ TencentReady c
  unfolding validate_tencent
  validate_tencent-TencentReady c =
      let g = text_eq_iff c.tencent_region region_guangzhou in
      let h = text_eq_iff c.tencent_region region_hongkong in
      (λ v. ground (arith, g, h), λ r. ground (arith, g, h))

  -- The settings are complete for the mode that they choose.
  abbrev pub IsUsable : Config → Type 0
  IsUsable c =
      (c.mode ≡ mode_direct)
      ⊎ ((c.mode ≡ mode_relay) × RelayReady c)
      ⊎ ((c.mode ≡ mode_tencent_ses) × TencentReady c)

  relay_ne_direct : ◌≢◌ {A = Text} mode_relay mode_direct
  relay_ne_direct h = cc

  tencent_ne_direct : ◌≢◌ {A = Text} mode_tencent_ses mode_direct
  tencent_ne_direct h = cc

  tencent_ne_relay : ◌≢◌ {A = Text} mode_tencent_ses mode_relay
  tencent_ne_relay h = cc

  validate-IsUsable : (c : Config) → (validate parse_address c ≡ none) ↔ IsUsable c
  unfolding validate
  validate-IsUsable c =
      let d = text_eq_iff c.mode mode_direct in
      let r = text_eq_iff c.mode mode_relay in
      let t = text_eq_iff c.mode mode_tencent_ses in
      (
        λ h. ground (arith, d, r, t, validate_relay-RelayReady c, validate_tencent-TencentReady c),
        λ h. ground (arith, d, r, t, validate_relay-RelayReady c, validate_tencent-TencentReady c),
      )

  checked : Option Invalid → Config → Checked
  checked none c = accepted c
  checked (some why) c = refused why

  checked-accepted :
      (o : Option Invalid) (c c' : Config) → (checked o c ≡ accepted c') ↔ ((c ≡ c') × (o ≡ none))
  unfolding checked
  checked-accepted o c c' = (λ h. ground arith, λ h. ground arith)

  checked-elim :
      (o : Option Invalid) (c : Config)
      → checked o c ≡ (elim o [ none ↦ accepted c | some why ↦ refused why ])
  unfolding checked
  checked-elim none c = refl
  checked-elim (some why) c = refl

  -- Exactly the configurations that are complete for their mode after normalisation are accepted,
  -- and what is accepted is the normalised configuration.
  pub normalize_and_validate-IsUsable :
      (u : Unicode) (c c' : Config)
      → (normalize_and_validate u parse_address c ≡ accepted c')
        ↔ ((normalize u c ≡ c') × IsUsable c')
  unfolding normalize_and_validate
  normalize_and_validate-IsUsable u c c' =
      let n = normalize u c in
      let iff = checked-accepted (validate parse_address n) n c' in
      let same = checked-elim (validate parse_address n) n in
      (
        λ h. let p = iff.0 (same ∙ h) in (p.0, subst IsUsable p.0 ((validate-IsUsable n).0 p.1)),
        λ h. sym same ∙ iff.1 (h.0, (validate-IsUsable n).1 (subst IsUsable (sym h.0) h.1)),
      )
