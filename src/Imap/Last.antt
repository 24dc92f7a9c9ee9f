-- ===== src/Imap/Last.antt =====
-- listen/imap_server: MOVE and COPY by several ranges.
use pmail.Base.{ℕ, ◌≡◌, refl, Bool, true, false, List, [], ◌∷◌, ◌++◌, Text}
use pmail.Imap.{Env, Session, seq_set, uid_set, last_messages, range_messages}
use pmail.Imap.Moving.{move, copy}
use pmail.Listing.{Message}

last_messages-snoc :
    (s : Session) (uid : Bool) (found : List Message) (rs : List (ℕ × ℕ)) (r : ℕ × ℕ)
    → last_messages s uid found (rs ++ r ∷ []) ≡ last_messages s uid [] (r ∷ [])
unfolding last_messages
last_messages-snoc s uid found [] r = refl
last_messages-snoc s uid found (x ∷ xs) r = last_messages-snoc s uid (range_messages s uid x) xs r

-- A MOVE and a COPY by several ranges, of sequence numbers or of UIDs, do with the tables and answer
-- what they would by the last range alone.
pub move-copy_last :
    (env : Env) (dest : Text) (s : Session) (rs : List (ℕ × ℕ)) (r : ℕ × ℕ)
    → (move env (seq_set (rs ++ r ∷ [])) dest s ≡ move env (seq_set (r ∷ [])) dest s)
      × (move env (uid_set (rs ++ r ∷ [])) dest s ≡ move env (uid_set (r ∷ [])) dest s)
      × (copy env (seq_set (rs ++ r ∷ [])) dest s ≡ copy env (seq_set (r ∷ [])) dest s)
      × (copy env (uid_set (rs ++ r ∷ [])) dest s ≡ copy env (uid_set (r ∷ [])) dest s)
unfolding move copy
move-copy_last env dest s rs r = (
  rw (last_messages-snoc s false [] rs r) refl,
  rw (last_messages-snoc s true [] rs r) refl,
  rw (last_messages-snoc s false [] rs r) refl,
  rw (last_messages-snoc s true [] rs r) refl,
)
