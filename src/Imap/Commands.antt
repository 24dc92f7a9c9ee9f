-- ===== src/Imap/Commands.antt =====
-- listen/imap_server: the commands that change a session or the rows of its tables.
use pmail.Base.{
  ℕ, Bool, true, false, Option, none, some, List, ◌==◌, if◌then◌else◌, is_empty, Text, trim_set,
}
use pmail.Imap.{Session, Env, Refusal, Numbers, FlagOp}
use pmail.Imap.Moving.{move, copy}
use pmail.Imap.Storing.{store, expunge}
use pmail.Search.Load.{last_segment}

-- The commands of a session and the tables after one; `none` when the fuel runs out.
pub data Command : Type 0 where
  do_store : Numbers → FlagOp → List Text → Command
  do_expunge : Option (List (ℕ × ℕ)) → Command
  do_move : Numbers → Text → Command
  do_copy : Numbers → Text → Command

abbrev pub session_in : Option (Option Refusal × Session) → Option Session
session_in none = none
session_in (some r) = some r.1

unfoldable pub step : ℕ → Env → Command → Session → Option Session
unfolding store expunge move copy
step n env (do_store set op flags) s = some (store env set op flags s).1
step n env (do_expunge uids) s = session_in (expunge n env uids s)
step n env (do_move set dest) s = some (move env set dest s).1
step n env (do_copy set dest) s = some (copy env set dest s).2

-- `Select`, whose answer on the mailbox's state is `status` (Mailboxes/Status): whether it is refused.
unfoldable pub select_mailbox : Text → Session → Bool × Session
unfolding last_segment
select_mailbox mailbox s =
    if is_empty mailbox
    then (false, s)
    else (true, record s { current_mailbox = trim_set (λ c. c == b'"') (last_segment mailbox) })
