-- ===== src/Imap/Ranges.antt =====
-- listen/imap_server/session_expunge.go: the loop over a range of UIDs.
use pmail.Base.{
  ℕ, zero, suc, ◌+◌, ◌%◌, ◌^◌, ◌<◌, ◌≡◌, refl, true, false, none, some, List, [], ◌∷◌, arith, leb,
}
use pmail.Imap.Storing.{uid_range}

-- The numbers from one on, a given number of them.
abbrev pub count_up : ℕ → ℕ → List ℕ
count_up zero i = []
count_up (suc k) i = i ∷ count_up k (i + 1)

next_uid : (i : ℕ) → i < 4294967295 → (i + 1) % 2 ^ 32 ≡ i + 1
next_uid i h = omega (arith, h)

wrapped_uid : (i : ℕ) → (i + 1) % 2 ^ 32 < 4294967296
wrapped_uid i = omega arith

uid_range-count_up :
    (k n i stop : ℕ)
    → stop < 4294967295
    → stop + 1 ≡ i + k
    → k < n
    → uid_range n i stop ≡ some (count_up k i)
unfolding uid_range
uid_range-count_up k zero i stop h e l = absurd (omega (arith, l))
uid_range-count_up zero (suc n) i stop h e l =
    let le : leb i stop ≡ false = ground (arith, e) in rw (uid_range, le) refl
uid_range-count_up (suc k) (suc n) i stop h e l =
    let le : leb i stop ≡ true = ground (arith, e) in
    rw
      (
        uid_range,
        next_uid i (omega (arith, h, e)),
        uid_range-count_up k n (i + 1) stop h (omega (arith, e)) (omega (arith, l)),
        le,
      )
      refl

uid_range-last : (n i : ℕ) → i < 4294967296 → uid_range n i 4294967295 ≡ none
unfolding uid_range
uid_range-last zero i h = refl
uid_range-last (suc n) i h =
    let le : leb i 4294967295 ≡ true = ground (arith, h) in
    rw (uid_range, uid_range-last n ((i + 1) % 2 ^ 32) (wrapped_uid i), le) refl

-- The loop over a range of UIDs whose end is below 2^32 - 1 ends with all its numbers in order, on fuel
-- that exceeds their number. From a `uint32` up to 2^32 - 1 it never ends, whatever the fuel.
pub uid_range-ends :
    (k n i stop m j : ℕ)
    → stop < 4294967295
    → stop + 1 ≡ i + k
    → k < n
    → j < 4294967296
    → (uid_range n i stop ≡ some (count_up k i)) × (uid_range m j 4294967295 ≡ none)
uid_range-ends k n i stop m j h e l b = (uid_range-count_up k n i stop h e l, uid_range-last m j b)
