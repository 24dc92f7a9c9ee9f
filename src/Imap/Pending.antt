-- ===== src/Imap/Pending.antt =====
-- listen/imap_server: the sessions that commands reach.
use pmail.Base.{ℕ, ◌≡◌, refl, ap, ◌∙◌, true, none, some, [], ◌∷◌, is_empty, Text}
use mathlib.Core.Path.{subst}
use pmail.Imap.{Session, Env}
use pmail.Imap.Commands.{Command, step, select_mailbox}
use pmail.Imap.Others.{Frames, FramesIn, Frames-refl, step-FramesIn}
use pmail.Imap.Storing.{expunge, expunge_uids}
use pmail.Removal.Others.{foreign_rows}

-- What SELECT and the commands on messages, STORE, EXPUNGE, MOVE and COPY, make of a session, whichever
-- statements fail.
pub data Runs (s : Session) : Session → Type 0 where
  started : Runs s s
  selected : (t : Session) (mailbox : Text) → Runs s t → Runs s (select_mailbox mailbox t).1
  stepped :
      (t t' : Session) (n : ℕ) (env : Env) (c : Command)
      → Runs s t
      → step n env c t ≡ some t'
      → Runs s t'

Frames-trans : (s t u : Session) → Frames s t → Frames t u → Frames s u
Frames-trans s t u h k = record {
  same_user = k.same_user ∙ h.same_user;
  same_groups = k.same_groups ∙ h.same_groups;
  same_others =
      subst (λ i. foreign_rows i u.store.user_emails ≡ foreign_rows i t.store.user_emails)
        h.same_user k.same_others
      ∙ h.same_others;
  none_waits = λ e. k.none_waits (h.none_waits e);
}

select_mailbox-Frames : (mailbox : Text) (s : Session) → Frames s (select_mailbox mailbox s).1
unfolding select_mailbox
select_mailbox-Frames [] s = Frames-refl s
select_mailbox-Frames (c ∷ cs) s = record {
  same_user = refl;
  same_groups = refl;
  same_others = refl;
  none_waits = λ e. e;
}

Runs-Frames : (s s' : Session) → Runs s s' → Frames s s'
Runs-Frames s _ started = Frames-refl s
Runs-Frames s _ (selected t mailbox r) =
    Frames-trans s t _ (Runs-Frames s t r) (select_mailbox-Frames mailbox t)
Runs-Frames s _ (stepped t t' n env c r e) =
    Frames-trans s t t' (Runs-Frames s t r) (subst (FramesIn t) e (step-FramesIn n env c t))

-- Whatever commands on messages (STORE, EXPUNGE, MOVE and COPY) and SELECTs run and whichever statements
-- fail, the user of the session and its groups stay as they are, and so do the other users' rows in
-- user_email.
pub Runs-others :
    (s s' : Session)
    → Runs s s'
    → (s'.user_id ≡ s.user_id)
      × (s'.groups ≡ s.groups)
      × (foreign_rows s.user_id s'.store.user_emails ≡ foreign_rows s.user_id s.store.user_emails)
Runs-others s s' r = let h = Runs-Frames s s' r in (h.same_user, h.same_groups, h.same_others)

-- In a session that STORE, EXPUNGE, MOVE, COPY and SELECT reach from one in which no UID waits for its
-- deletion, whichever statements fail, a plain EXPUNGE changes nothing and answers without an error.
pub plain_expunge-idle :
    (s s' : Session) (n : ℕ) (env : Env)
    → Runs s s'
    → s.deleted_uids ≡ []
    → expunge n env none s' ≡ some (none, s')
unfolding expunge expunge_uids
plain_expunge-idle s s' n env r e = idle (ap is_empty ((Runs-Frames s s' r).none_waits e))
  where
    idle : is_empty s'.deleted_uids ≡ true → expunge n env none s' ≡ some (none, s')
    idle k = rw (expunge_uids, k) refl
