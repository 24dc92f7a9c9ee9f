-- ===== src/Smtp/Handler/Spoofed.antt =====
-- listen/smtp_server/read_content.go: what `Data` finds out about the sender, whatever plugins do.
use pmail.Base.{
  ℕ, ◌≡◌, refl, ap, ◌⊎◌, inl, inr, Bool, true, false, ◌&&◌, none, some, List, [], arith,
  if◌then◌else◌, Option-cases, length, Text,
}
use pmail.Parsemail.{MailUser}
use pmail.Parsemail.Reader.{Letter}
use pmail.Smtp.Audit.{Email, Store}
use pmail.Smtp.Audit.Relations.{Recorded}
use pmail.Smtp.Handler.{is_spoofed, judge, save_received}
use pmail.Smtp.Incoming.{
  Parsed, Saved, sender_missing, received, save_email, save_resolved, checks, incoming_accounts,
  resolve_incoming_users,
}
use pmail.Smtp.Incoming.Recipients.{save_email-IsSaved}
use pmail.Smtp.Ruling.{parsed_of}
use pmail.Smtp.Server.{Server}
use pmail.Smtp.Session.{Session}

module _ (v : Server) where
  spoofed_not_spf : (sender : MailUser) (spf : Bool) → is_spoofed v sender spf ≡ true → spf ≡ false
  unfolding is_spoofed
  spoofed_not_spf sender true h = absurd (and_not_true _ h)
    where
      and_not_true : (a : Bool) → (a && false) ≡ true → ⊥
      and_not_true a h = ground arith
  spoofed_not_spf sender false h = refl

  -- A spoofed mail has status 3 and fails both checks, whatever the plugins did to it.
  judge-Spoofed :
      (sender : MailUser) (spf dkim : Bool) (m : Letter)
      → is_spoofed v sender spf ≡ true
      → ((judge v sender spf dkim m).status ≡ 3)
        × ((judge v sender spf dkim m).authentication ≡ some (false, false))
  unfolding judge
  judge-Spoofed sender spf dkim m h =
      let failed = spoofed_not_spf sender spf h in
      (rw h refl, rw (h, failed) (ap some (cc (no-dkim dkim))))
    where
      no-dkim : (b : Bool) → (b && false) ≡ false
      no-dkim b = ground arith

  -- A row for a mail that failed both checks and has status 3.
  pub record IsMarked (row : Email) : Type 0 where
    pub status : row.status ≡ 3
    pub spf_check : row.spf_check ≡ 0
    pub dkim_check : row.dkim_check ≡ 0

  checks-of :
      (m : Letter) (spf dkim : Bool) (c : Bool × Bool)
      → m.authentication ≡ some c
      → checks v.unicode v.lib v.sql_lower v.world (parsed_of m) spf dkim ≡ c
  checks-of m spf dkim c h =
      ap (λ o. elim o as (λ _. Bool × Bool) [ none ↦ (spf, dkim) | some c ↦ c ]) h

  save_email_no_sender :
      (size : ℕ) (m : Parsed) (to : List Text) (spf dkim : Bool) (s : Store)
      → m.sent_from ≡ none
      → (save_email v.unicode v.lib v.sql_lower v.world v.is_sqlite v.first_faults size
          (some m)
          to
          spf
          dkim
          s).store
        ≡ s
  unfolding save_email
  save_email_no_sender size m to spf dkim s h =
      let w = v.world in
      let c = checks v.unicode v.lib v.sql_lower w m spf dkim in
      let accounts = incoming_accounts v.unicode v.lib v.sql_lower w m to in
      ap
        (λ o.
          (elim o as (λ _. Saved) [
            | none ↦ record { error = some sender_missing; users = []; store = s }
            | some sender ↦
                save_resolved v.unicode v.lib v.sql_lower w v.is_sqlite v.first_faults
                  (received v.unicode v.lib v.sql_lower w size m sender c.0 c.1)
                  (resolve_incoming_users v.unicode v.lib v.sql_lower w accounts c.0 c.1) s
          ]).store)
        h

  -- A mail from one of the server's own domains, from an address for which SPF fails, leaves the tables
  -- as they were, or is saved once as a mail of status 3 that failed SPF and DKIM, whatever the
  -- plugins did to it and whatever DKIM says.
  pub save_received-IsMarked :
      (c : Session) (content : Text) (sender : MailUser) (spf dkim own_spf own_dkim : Bool)
      (m : Letter) (s : Store)
      → is_spoofed v sender spf ≡ true
      → let r = save_received v c content own_spf own_dkim (judge v sender spf dkim m) s in
        (r.store ≡ s) ⊎ ((row : Email) × (ids : List ℕ) × IsMarked row × Recorded row ids s r.store)
  unfolding save_received
  save_received-IsMarked c content sender spf dkim own_spf own_dkim m s h =
      let judged = judge v sender spf dkim m in
      let marks = judge-Spoofed sender spf dkim m h in
      elim (Option-cases judged.sent_from) [
        | inl none_there ↦ inl (
            save_email_no_sender (length content) (parsed_of judged) c.to own_spf own_dkim s
              none_there)
        | inr (from, there) ↦
            elim (save_email-IsSaved v.unicode v.lib v.sql_lower v.world v.is_sqlite v.first_faults
              (length content) (parsed_of judged) from c.to own_spf own_dkim s there) [
                | inl (same, why) ↦ inl same
                | inr (fine, right, saved) ↦
                    let failed = checks-of judged own_spf own_dkim (false, false) marks.1 in
                    let k =
                      checks v.unicode v.lib v.sql_lower v.world (parsed_of judged) own_spf
                        own_dkim in
                    inr (
                      received v.unicode v.lib v.sql_lower v.world (length content)
                          (parsed_of judged) from k.0 k.1,
                      _,
                      record {
                        status = marks.0;
                        spf_check = ap (λ k. if k.0 then 1 else 0) failed;
                        dkim_check = ap (λ k. if k.1 then 1 else 0) failed;
                      },
                      saved,
                    )
              ]
      ]
