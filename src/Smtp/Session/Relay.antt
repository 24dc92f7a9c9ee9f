-- ===== src/Smtp/Session/Relay.antt =====
-- A session never collects a recipient elsewhere for a client that has not logged in.
use pmail.Base.{
  ◌≡◌, refl, ◌≢◌, ◌⊎◌, inl, inr, true, false, not, ◌&&◌, Option, none, some, List, [], ◌∷◌, ◌++◌,
  arith, ltb, ◌==◌, ltb→lt, Bool-cases, All, All-append, Text, Unicode,
}
use mathlib.Core.Path.{subst}
use pmail.Tables.{User}
use pmail.Smtp.Session.{
  Session, new_session, Reply, ok, split_smtp_address, is_local_domain, Directory, is_known, log_in,
  find_login, login_account, encode_password, auth_plain, mail, rcpt, rcpt_split, reset,
}

-- What a client may send within a session, with the directory as it is at that time.
pub data Command : Type 0 where
  auth_command : Directory → Text → Text → Command
  mail_command : Text → Command
  rcpt_command : Directory → Text → Command
  reset_command : Command

module _ (u : Unicode) (md5_hex sql_lower : Text → Text) (domains : List Text) where
  abbrev pub step : Command → Session → Session
  step (auth_command dir username pwd) s =
      (auth_plain u md5_hex sql_lower domains dir username pwd s).0
  step (mail_command from) s = (mail u md5_hex sql_lower domains from s).0
  step (rcpt_command dir to) s = (rcpt u md5_hex sql_lower domains dir to s).0
  step reset_command s = reset u md5_hex sql_lower domains s

  abbrev pub run : List Command → Session → Session
  run [] s = s
  run (c ∷ cs) s = run cs (step c s)

  -- The address is well formed and its domain is one of ours.
  pub record IsLocal (to : Text) : Type 0 where
    pub account : Text
    pub domain : Text
    pub splits : split_smtp_address u to ≡ some (account, domain)
    pub ours : is_local_domain u domains domain ≡ true

  abbrev pub NoOpenRelay : Session → Type 0
  NoOpenRelay s = s.user_id ≡ 0 → All IsLocal s.to

  log_in-NoOpenRelay :
      (username : Text) (o : Option User) (s : Session)
      → NoOpenRelay s
      → NoOpenRelay (log_in u md5_hex sql_lower domains username o s).0
  unfolding log_in
  log_in-NoOpenRelay username none s h = h
  log_in-NoOpenRelay username (some r) s h = elim (Bool-cases (ltb 0 r.id)) [
    | inl found ↦ rw found (λ e. absurd (omega (arith, ltb→lt 0 r.id found)))
    | inr no_row ↦ rw no_row h
  ]

  -- What `Rcpt` asks of an address that splits into these parts.
  pub record Accepts (dir : Directory) (s : Session) (parts : Text × Text) : Type 0 where
    pub may_relay : (is_local_domain u domains parts.1 ≡ true) ⊎ (s.user_id ≢ 0)
    pub known :
        is_local_domain u domains parts.1 ≡ true
        → (dir.fails ≡ false) × (is_known u md5_hex sql_lower domains dir parts.0 ≡ true)

  -- The reply, and what becomes of the recipients.
  rcpt_split-Accepts :
      (dir : Directory) (to : Text) (parts : Text × Text) (s : Session)
      → let r = rcpt_split u md5_hex sql_lower domains dir to parts s in
        ((r.1 ≡ ok) × (r.0 ≡ record s { to = s.to ++ to ∷ [] }) × Accepts dir s parts)
        ⊎ ((r.1 ≢ ok) × (r.0 ≡ s) × ¬ (Accepts dir s parts))
  unfolding rcpt_split
  rcpt_split-Accepts dir to parts s =
      let local = is_local_domain u domains parts.1 in
      let known = is_known u md5_hex sql_lower domains dir parts.0 in
      elim (Bool-cases (s.user_id == 0 && not local)) [
        | inl denied ↦ rw denied (inr ((λ e. cc), refl, (λ a. ground (arith, a.may_relay))))
        | inr may ↦ elim (Bool-cases (local && dir.fails)) [
          | inl failed ↦
              rw (may, failed)
                (inr ((λ e. cc), refl, (λ a. ground (arith, a.known (ground arith)))))
          | inr answered ↦ elim (Bool-cases (local && not known)) [
            | inl unknown ↦
                rw (may, answered, unknown)
                  (inr ((λ e. cc), refl, (λ a. ground (arith, a.known (ground arith)))))
            | inr found ↦
                rw (may, answered, found)
                  (inl (
                    refl,
                    refl,
                    record { may_relay = ground arith; known = λ l. (ground arith, ground arith) },
                  ))
          ]
        ]
      ]

  -- The recipient `to` is taken on, or refused with nothing changed.
  abbrev pub Answers : Directory → Text → Session → Option (Text × Text) → Session × Reply → Type 0
  Answers dir to s o (s', reply) =
      ((reply ≡ ok)
        × (s' ≡ record s { to = s.to ++ to ∷ [] })
        × ((parts : Text × Text) × (o ≡ some parts) × Accepts dir s parts))
      ⊎ ((reply ≢ ok)
          × (s' ≡ s)
          × ((parts : Text × Text) → o ≡ some parts → ¬ (Accepts dir s parts)))

  Answers-split :
      (dir : Directory) (to : Text) (s : Session) (o : Option (Text × Text))
      → Answers dir to s o (elim o [
        | none ↦ (s, Reply.invalid_recipient)
        | some parts ↦ rcpt_split u md5_hex sql_lower domains dir to parts s
      ])
  Answers-split dir to s none = inr ((λ e. cc), refl, (λ parts e. cc))
  Answers-split dir to s (some parts) = elim (rcpt_split-Accepts dir to parts s) [
    | inl a ↦ inl (a.0, a.1, (parts, refl, a.2))
    | inr r ↦ inr (r.0, r.1, (λ q e. subst (λ z. ¬ (Accepts dir s z)) (some-injective' e) r.2))
  ]
    where
      some-injective' : {p q : Text × Text} → some p ≡ some q → p ≡ q
      some-injective' e = cc

  -- A recipient is accepted exactly if its address is well formed, its domain is ours or the client
  -- has logged in, and, if the domain is ours, the directory answers and knows the account. What is
  -- accepted is appended to the recipients, and a refused command changes nothing.
  pub rcpt-Answers :
      (dir : Directory) (to : Text) (s : Session)
      → Answers dir to s (split_smtp_address u to) (rcpt u md5_hex sql_lower domains dir to s)
  unfolding rcpt
  rcpt-Answers dir to s = Answers-split dir to s (split_smtp_address u to)

  rcpt-NoOpenRelay :
      (dir : Directory) (to : Text) (s : Session)
      → NoOpenRelay s
      → NoOpenRelay (rcpt u md5_hex sql_lower domains dir to s).0
  rcpt-NoOpenRelay dir to s h = elim (rcpt-Answers dir to s) [
    | inl a ↦
        rw (a.1) (λ e. All-append _ s.to (to ∷ []) (h e) (local a.2.0 a.2.1 a.2.2.may_relay e, tt))
    | inr r ↦ rw (r.1) h
  ]
    where
      local :
          (parts : Text × Text)
          → split_smtp_address u to ≡ some parts
          → (is_local_domain u domains parts.1 ≡ true) ⊎ (s.user_id ≢ 0)
          → s.user_id ≡ 0
          → IsLocal to
      local parts e (inl ours) z = record {
        account = parts.0;
        domain = parts.1;
        splits = e;
        ours = ours;
      }
      local parts e (inr auth) z = absurd (auth z)

  step-NoOpenRelay : (c : Command) (s : Session) → NoOpenRelay s → NoOpenRelay (step c s)
  unfolding auth_plain mail reset
  step-NoOpenRelay (auth_command dir username pwd) s h =
      log_in-NoOpenRelay username
        (find_login u md5_hex sql_lower domains dir (login_account username)
          (encode_password md5_hex pwd))
        s h
  step-NoOpenRelay (mail_command from) s h = h
  step-NoOpenRelay (rcpt_command dir to) s h = rcpt-NoOpenRelay dir to s h
  step-NoOpenRelay reset_command s h = λ e. tt

  run_from-NoOpenRelay : (cs : List Command) (s : Session) → NoOpenRelay s → NoOpenRelay (run cs s)
  run_from-NoOpenRelay [] s h = h
  run_from-NoOpenRelay (c ∷ cs) s h = run_from-NoOpenRelay cs (step c s) (step-NoOpenRelay c s h)

  -- After any sequence of commands, with whatever directory each of them meets, a session that has
  -- not logged in holds recipients of our own domains alone: the server is no open relay.
  pub run-NoOpenRelay :
      (cs : List Command) → (run cs new_session).user_id ≡ 0 → All IsLocal (run cs new_session).to
  run-NoOpenRelay cs = run_from-NoOpenRelay cs new_session (λ e. tt)
