-- ===== src/Db/Calls.antt =====
-- The two calls that run a transaction, from the behaviour of the loop.
use pmail.Base.{
  ℕ, zero, suc, ◌+◌, ◌-◌, ◌≤◌, ◌≡◌, refl, sym, ◌∙◌, ◌≢◌, ◌⊎◌, inl, inr, Bool, false, none, [],
  arith,
}
use pmail.Base.Int.{ℤ, pos}
use mathlib.Core.Path.{subst}
use mathlib.Core.Bool.{false≢true}
use pmail.Db.{Attempt, Outcome, retry_loop, at_least_one, transaction_with_retry, transaction}
use pmail.Db.Retry.{schedule, total, total-schedule, world, AllBusy, Settles, retry_loop-Settles}

module _ {S : Type 0} (is_sqlite : Bool) (env : ℕ → Attempt S) where
  -- Whatever BEGIN, COMMIT, the callback and other connections do, as long as no ROLLBACK fails:
  -- the call makes at least one and at most `attempts` attempts (one, if that number is below 1),
  -- repeats only failures of SQLite with BUSY or LOCKED, behind the doubling pauses, and ends
  -- either with what the last attempt's callback made of the database or with an error and the
  -- database as that attempt met it.
  pub transaction_with_retry-Settles :
      (attempts : ℤ) (initial_backoff : ℕ) (s : S)
      → ((k : ℕ) → (env k).rollback_error ≡ none)
      → Settles is_sqlite env initial_backoff 1
          (at_least_one attempts)
          s
          (transaction_with_retry is_sqlite attempts initial_backoff env s)
  unfolding transaction_with_retry
  transaction_with_retry-Settles attempts initial_backoff s unhurt =
      let n = at_least_one attempts in
      let e : n ≡ suc (n - 1) = ground arith in
      subst
        (λ k.
          Settles is_sqlite env initial_backoff 1 k s
            (retry_loop is_sqlite n initial_backoff env k 1 none s))
        (sym e)
        (retry_loop-Settles is_sqlite n initial_backoff env (n - 1) 1 none s unhurt (ground arith))

  -- A database other than SQLite, as long as no ROLLBACK fails, sees one attempt and no pause,
  -- whatever it fails with.
  transaction_other_driver :
      (s : S)
      → is_sqlite ≡ false
      → ((k : ℕ) → (env k).rollback_error ≡ none)
      → let out = transaction is_sqlite env s in
        (out.pauses ≡ [])
        × (((out.error ≡ none) × ((env 1).body s ≡ (none, out.state)))
            ⊎ ((out.error ≢ none) × (out.state ≡ s)))
  unfolding transaction
  transaction_other_driver s h unhurt =
      let t = transaction_with_retry-Settles (pos 3) 50_000_000 s unhurt in
      go _ t.failed t.busy t.pauses t.last
    where
      go :
          (out : Outcome S) (n : ℕ)
          → AllBusy is_sqlite env 1 n s
          → out.pauses ≡ schedule 50_000_000 1 n
          → ((out.error ≡ none)
              × ((env (1 + n)).body (world is_sqlite env 1 n s) ≡ (none, out.state)))
            ⊎ ((out.error ≢ none) × (out.state ≡ world is_sqlite env 1 n s))
          → (out.pauses ≡ [])
            × (((out.error ≡ none) × ((env 1).body s ≡ (none, out.state)))
                ⊎ ((out.error ≢ none) × (out.state ≡ s)))
      go out zero b p l = (p, l)
      go out (suc n) b p l = absurd (false≢true (sym h ∙ b.0.3))

  -- As long as no ROLLBACK fails, `Transaction` waits for 150 ms in all at most between its
  -- attempts.
  transaction_pauses :
      (s : S)
      → ((k : ℕ) → (env k).rollback_error ≡ none)
      → total (transaction is_sqlite env s).pauses ≤ 150_000_000
  unfolding transaction
  transaction_pauses s unhurt =
      let t = transaction_with_retry-Settles (pos 3) 50_000_000 s unhurt in
      rw (t.pauses) (total-schedule t.failed t.failed-lt)

  world-others_idle :
      (attempt n : ℕ) (s : S)
      → ((k : ℕ) (t : S) → (env k).others t ≡ t)
      → world is_sqlite env attempt n s ≡ s
  world-others_idle attempt zero s h = refl
  world-others_idle attempt (suc n) s h =
      world-others_idle (attempt + 1) n ((env attempt).others s) h ∙ h attempt s

  -- Where no other connection writes and no ROLLBACK fails, a transaction ends with what one run
  -- of its callback made of the database, or with an error and the database as it was.
  pub transaction_atomic :
      (s : S)
      → ((k : ℕ) → (env k).rollback_error ≡ none)
      → ((k : ℕ) (t : S) → (env k).others t ≡ t)
      → let out = transaction is_sqlite env s in
        ((out.error ≡ none) × ((k : ℕ) × ((env k).body s ≡ (none, out.state))))
        ⊎ ((out.error ≢ none) × (out.state ≡ s))
  unfolding transaction
  transaction_atomic s unhurt idle =
      let t = transaction_with_retry-Settles (pos 3) 50_000_000 s unhurt in
      let w = world-others_idle 1 t.failed s idle in
      elim t.last [
        | inl c ↦ inl (
          c.0,
          (
            1 + t.failed,
            subst (λ z. (env (1 + t.failed)).body z ≡ (none, (transaction is_sqlite env s).state)) w
                c.1,
          ),
        )
        | inr f ↦ inr (f.0, f.1 ∙ w)
      ]
