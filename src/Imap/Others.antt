-- ===== src/Imap/Others.antt =====
-- listen/imap_server: what a session leaves as it is.
use pmail.Base.{
  ℕ, ◌≡◌, refl, ◌∙◌, Bool, true, false, Option, none, some, List, [], map, ◌==◌, if◌then◌else◌,
  is_empty, Text,
}
use pmail.Groups.{group_by_full_path}
use pmail.Imap.{
  group_not_found, email_not_found, is_add, Session, Env, Refusal, Numbers, FlagOp, numbered_last,
  numbered_all, is_default_box, refused_by,
}
use pmail.Imap.Commands.{session_in, Command, do_store, do_expunge, do_move, do_copy, step}
use pmail.Imap.Foreign.{
  make_all_read-foreign, if-foreign, move_to_default_box-foreign, move_rows-foreign,
  copy_all-foreign,
}
use pmail.Imap.Moving.{
  copied, no_data, group_name_to_code, copy_status, CopyData, move_to_default_box, move_rows,
  move_to_user_box, move_found, move, copy_all, copy_found, copy,
}
use pmail.Imap.Storing.{delete_uids, store_found, store, uid_ranges, expunge_uids, expunge}
use pmail.Removal.Others.{foreign_rows, del_by_uid-foreign}
use pmail.Smtp.Audit.{Store}
use pmail.Tables.{UserEmail}

-- The user and the groups are as before, and so are the other users' rows; and no UID waits for its
-- deletion if none did.
pub record Frames (s s' : Session) : Type 0 where
  pub same_user : s'.user_id ≡ s.user_id
  pub same_groups : s'.groups ≡ s.groups
  pub same_others :
      foreign_rows s.user_id s'.store.user_emails ≡ foreign_rows s.user_id s.store.user_emails
  pub none_waits : s.deleted_uids ≡ [] → s'.deleted_uids ≡ []

pub Frames-refl : (s : Session) → Frames s s
Frames-refl s = record {
  same_user = refl;
  same_groups = refl;
  same_others = refl;
  none_waits = λ e. e;
}

-- A change of the rows alone.
Frames-rows :
    (s : Session) (t : Store)
    → foreign_rows s.user_id t.user_emails ≡ foreign_rows s.user_id s.store.user_emails
    → Frames s (record s { store = t })
Frames-rows s t e = record {
  same_user = refl;
  same_groups = refl;
  same_others = e;
  none_waits = λ k. k;
}

Framed {ℓ} : {A : Type ℓ} → Session → A × Session → Type 0
Framed s r = Frames s r.1

if-Framed {ℓ} :
    {A : Type ℓ} (s : Session) (b : Bool) (x y : A × Session)
    → Framed s x
    → Framed s y
    → Framed s (if b then x else y)
if-Framed s true x y h k = h
if-Framed s false x y h k = k

answer-Framed {ℓ} : {A : Type ℓ} (s s' : Session) (a : A) → Frames s s' → Framed s (a, s')
unfolding Framed
answer-Framed s s' a h = h

delete_uids-Framed :
    (env : Env) (uids : List ℕ) (s : Session) (rows : List UserEmail)
    → foreign_rows s.user_id rows ≡ foreign_rows s.user_id s.store.user_emails
    → Framed s (delete_uids env uids (record s { store = record s.store { user_emails = rows } }))
unfolding delete_uids Framed
delete_uids-Framed env uids s rows e = record {
  same_user = refl;
  same_groups = refl;
  same_others =
      del_by_uid-foreign env.deletion s.user_id 0 uids (record s.store { user_emails = rows }) ∙ e;
  none_waits = λ k. refl;
}

store-Framed :
    (env : Env) (set : Numbers) (op : FlagOp) (flags : List Text) (s : Session)
    → Framed s (store env set op flags s)
unfolding store store_found
store-Framed env set op flags s = if-Framed s _ _ _ (answer-Framed s s none (Frames-refl s)) (
    delete_uids-Framed env _ s _ (
      if-foreign s.user_id _ _ _ _
        (make_all_read-foreign env.read_fails s.user_id (is_add op) (numbered_all s set)
          s.store.user_emails)
        refl))

expunge_uids-Framed : (env : Env) (uids : List ℕ) (s : Session) → Framed s (expunge_uids env uids s)
unfolding expunge_uids
expunge_uids-Framed env uids s =
    if-Framed s _ _ _ (answer-Framed s s none (Frames-refl s))
      (delete_uids-Framed env _ s s.store.user_emails refl)

move-Framed :
    (env : Env) (set : Numbers) (dest : Text) (s : Session) → Framed s (move env set dest s)
unfolding move move_found move_to_user_box
move-Framed env set dest s =
    let found = numbered_last s set in
    let ids = map (λ m. m.id) found in
    let g = group_by_full_path s.groups s.user_id dest in
    let r = move_to_default_box env s.user_id ids dest s.store in
    if-Framed s (is_empty found) _ _ (answer-Framed s s none (Frames-refl s)) (
      if-Framed s (is_default_box dest) _ _
        (answer-Framed s _ (refused_by r.0)
          (Frames-rows s r.1 (move_to_default_box-foreign env s.user_id ids dest s.store)))
        (if-Framed s (g.id == 0) _ _ (answer-Framed s s (some group_not_found) (Frames-refl s)) (
          answer-Framed s _ none (
            Frames-rows s (move_rows env s.user_id ids g.id s)
              (move_rows-foreign env ids g.id s)))))

FramedCopy : Session → Option CopyData × Option Refusal × Session → Type 0
FramedCopy s r = Frames s r.2

if-FramedCopy :
    (s : Session) (b : Bool) (x y : Option CopyData × Option Refusal × Session)
    → FramedCopy s x
    → FramedCopy s y
    → FramedCopy s (if b then x else y)
if-FramedCopy s true x y h k = h
if-FramedCopy s false x y h k = k

answer-FramedCopy :
    (s s' : Session) (d : Option CopyData) (a : Option Refusal)
    → Frames s s'
    → FramedCopy s (d, a, s')
unfolding FramedCopy
answer-FramedCopy s s' d a h = h

copy-Framed :
    (env : Env) (set : Numbers) (dest : Text) (s : Session) → FramedCopy s (copy env set dest s)
unfolding copy copy_found
copy-Framed env set dest s =
    let found = numbered_last s set in
    let g = group_by_full_path s.groups s.user_id dest in
    let by_default = copy_all env.insert_fails s.user_id 0 (λ m. copy_status dest) found s.store in
    let by_group = copy_all env.insert_fails s.user_id g.id (λ m. m.status) found s.store in
    if-FramedCopy s (is_empty found) _ _
      (answer-FramedCopy s s none (some email_not_found) (Frames-refl s))
      (if-FramedCopy s (is_default_box dest) _ _
        (answer-FramedCopy s _ (some (copied (group_name_to_code dest) found s by_default).0) none (
          Frames-rows s by_default.1
            (copy_all-foreign env.insert_fails s.user_id 0 (λ m. copy_status dest) found s.store)))
        (if-FramedCopy s (g.id == 0) _ _
          (answer-FramedCopy s s (some (no_data found)) (some group_not_found) (Frames-refl s))
          (answer-FramedCopy s _ (some (copied g.id found s by_group).0) none (
            Frames-rows s by_group.1
              (copy_all-foreign env.insert_fails s.user_id g.id (λ m. m.status) found s.store)))))

-- Where a command ends.
abbrev pub FramesIn : Session → Option Session → Type 0
FramesIn s none = Unit
FramesIn s (some s') = Frames s s'

Framed-In :
    (s : Session) (r : Option Refusal × Session) → Framed s r → FramesIn s (session_in (some r))
unfolding Framed
Framed-In s (a, s') h = h

expunge-FramesIn :
    (n : ℕ) (env : Env) (uids : Option (List (ℕ × ℕ))) (s : Session)
    → FramesIn s (session_in (expunge n env uids s))
unfolding expunge
expunge-FramesIn n env none s = Framed-In s _ (expunge_uids-Framed env [] s)
expunge-FramesIn n env (some ranges) s = go (uid_ranges n ranges)
  where
    go :
        (o : Option (List ℕ))
        → FramesIn s (
            session_in (elim o as (λ _. Option (Option Refusal × Session)) [
              | none ↦ none
              | some uids ↦ some (expunge_uids env uids s)
            ]))
    go none = tt
    go (some uids) = Framed-In s _ (expunge_uids-Framed env uids s)

pub step-FramesIn : (n : ℕ) (env : Env) (c : Command) (s : Session) → FramesIn s (step n env c s)
unfolding step Framed FramedCopy
step-FramesIn n env (do_store set op flags) s = store-Framed env set op flags s
step-FramesIn n env (do_expunge uids) s = expunge-FramesIn n env uids s
step-FramesIn n env (do_move set dest) s = move-Framed env set dest s
step-FramesIn n env (do_copy set dest) s = copy-Framed env set dest s
