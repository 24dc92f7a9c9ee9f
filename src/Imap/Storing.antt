-- ===== src/Imap/Storing.antt =====
-- listen/imap_server: session_store.go and session_expunge.go, with `MakeRead` of services/detail.
use pmail.Base.{
  ℕ, zero, suc, ◌+◌, ◌%◌, ◌^◌, Bool, ◌&&◌, Option, none, some, List, [], ◌∷◌, ◌++◌, map, ltb, leb,
  if◌then◌else◌, is_empty, Text, codes,
}
use pmail.Imap.{
  Session, Env, Refusal, Numbers, FlagOp, is_add, is_set, has_flag, range_messages, all_messages,
  numbered_all, refused_by,
}
use pmail.Listing.{Message}
use pmail.Removal.{relates, del_by_uid}
use pmail.Tables.{UserEmail, update_where}

-- `MakeRead`, whose error is dropped
unfoldable pub make_read : Bool → ℕ → ℕ → Bool → List UserEmail → List UserEmail
make_read fails user_id email_id had_read rows =
    if fails
    then rows
    else update_where (relates email_id user_id)
        (λ r. record r { is_read = if had_read then 1 else 0 }) rows

unfoldable pub make_all_read :
    (ℕ → Bool) → ℕ → Bool → List Message → List UserEmail → List UserEmail
unfolding make_read
make_all_read fails user_id had_read [] rows = rows
make_all_read fails user_id had_read (m ∷ ms) rows =
    make_all_read fails user_id had_read ms (make_read (fails m.id) user_id m.id had_read rows)

-- The end of `Store` and of `Expunge`: a deletion by UIDs, after which none waits.
unfoldable pub delete_uids : Env → List ℕ → Session → Option Refusal × Session
delete_uids env uids s =
    let r = del_by_uid env.deletion 0 s.user_id uids s.store in
    (refused_by r.0, record s { store = r.1; deleted_uids = [] })

-- `Store` from the messages found
unfoldable pub store_found :
    Env → List Message → FlagOp → List Text → Session → Option Refusal × Session
unfolding make_all_read delete_uids
store_found env found op flags s =
    let read =
      if has_flag flags (codes "\\Seen") && is_add op
      then make_all_read env.read_fails s.user_id (is_add op) found s.store.user_emails
      else s.store.user_emails in
    let waiting =
      if has_flag flags (codes "\\Deleted") && is_add op
      then s.deleted_uids ++ map (λ m. m.ue_id) found
      else s.deleted_uids in
    let s' = record s { store = record s.store { user_emails = read } } in
    if is_set op then (none, s) else delete_uids env waiting s'

-- `Store`
unfoldable pub store : Env → Numbers → FlagOp → List Text → Session → Option Refusal × Session
unfolding all_messages range_messages store_found
store env set op flags s = store_found env (numbered_all s set) op flags s

-- The loop of `Expunge` on one range, over the `uint32`s; `none` when the fuel runs out.
unfoldable pub uid_range : ℕ → ℕ → ℕ → Option (List ℕ)
uid_range zero i stop = none
uid_range (suc n) i stop =
    let rest = uid_range n ((i + 1) % 2 ^ 32) stop in
    if leb i stop then elim rest [ none ↦ none | some is ↦ some (i ∷ is) ] else some []

unfoldable pub uid_ranges : ℕ → List (ℕ × ℕ) → Option (List ℕ)
unfolding uid_range
uid_ranges n [] = some []
uid_ranges n (r ∷ rs) =
    let rest = uid_ranges n rs in
    let here = if ltb 0 r.0 && ltb 0 r.1 then uid_range n r.0 r.1 else some [] in
    elim here [ none ↦ none | some is ↦ elim rest [ none ↦ none | some js ↦ some (is ++ js) ] ]

-- `Expunge` after its loop
unfoldable pub expunge_uids : Env → List ℕ → Session → Option Refusal × Session
unfolding delete_uids
expunge_uids env uids s =
    if is_empty (uids ++ s.deleted_uids)
    then (none, s)
    else delete_uids env (uids ++ s.deleted_uids) s

-- `Expunge`; without a UID set it is the plain command.
unfoldable pub expunge :
    ℕ → Env → Option (List (ℕ × ℕ)) → Session → Option (Option Refusal × Session)
unfolding uid_ranges expunge_uids
expunge n env none s = some (expunge_uids env [] s)
expunge n env (some ranges) s = elim (uid_ranges n ranges) [
  | none ↦ none
  | some uids ↦ some (expunge_uids env uids s)
]
