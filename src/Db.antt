-- ===== src/Db.antt =====
-- db/retry.go: transactions, and their retry on SQLite's BUSY and LOCKED. The database is a state
-- `S`; what one attempt meets (failing BEGIN, ROLLBACK and COMMIT, the effect of the callback, what
-- other connections commit during the pause behind it) is an `Attempt`, one for each number.
pub mod Retry
pub mod Calls
use pmail.Base.{
  ℕ, zero, suc, ◌+◌, ◌-◌, ◌*◌, ◌%◌, ◌^◌, Bool, true, false, not, ◌||◌, Option, none, some, List, [],
  ◌∷◌, ◌==◌, if◌then◌else◌, Text, codes,
}
use pmail.Base.Int.{ℤ, pos, ltb_ℤ, pos_part}

-- The errors that `errors.As` walks: `fmt.Errorf("…%w", e)` and `errors.Join` wrap others.
pub data Error : Type 0 where
  sqlite : ℕ → Error
  other : Text → Error
  wrapped : Text → Error → Error
  joined : Error → Error → Error

-- `errors.As(err, &sqliteErr)`: depth first, giving the result code.
unfoldable pub as_sqlite : Error → Option ℕ
as_sqlite (sqlite c) = some c
as_sqlite (other s) = none
as_sqlite (wrapped s e) = as_sqlite e
as_sqlite (joined a b) =
    let second = as_sqlite b in elim (as_sqlite a) [ some c ↦ some c | none ↦ second ]

-- `IsSQLiteBusyOrLocked`
unfoldable pub is_busy_or_locked : Error → Bool
unfolding as_sqlite
is_busy_or_locked e = elim (as_sqlite e) [
  | none ↦ false
  | some c ↦ let primary = c % 256 in primary == 5 || primary == 6
]

pub record Attempt (S : Type 0) : Type 0 where
  pub begin_error : Option Error
  pub body : S → Option Error × S
  pub rollback_error : Option (Error × S)
  pub commit_error : Option Error
  pub others : S → S

-- What `runTransactionAttempt` returns, and the database behind it.
pub record Ran (S : Type 0) : Type 0 where
  pub error : Option Error
  pub retry_safe : Bool
  pub state : S

-- What `transactionWithRetry` returns, the database behind it, and the pauses made (nanoseconds).
pub record Outcome (S : Type 0) : Type 0 where
  pub error : Option Error
  pub state : S
  pub pauses : List ℕ

module _ {S : Type 0} where
  -- The transaction's writes reach the database by COMMIT only; a COMMIT that fails rolls back.
  unfoldable pub commit : Attempt S → S → S → Ran S
  commit a before after = elim a.commit_error [
    | some e ↦ record {
      error = some (wrapped (codes "commit transaction") e);
      retry_safe = true;
      state = before;
    }
    | none ↦ record { error = none; retry_safe = false; state = after }
  ]

  unfoldable pub roll_back : Attempt S → Error → S → Ran S
  roll_back a e before = elim a.rollback_error [
    | some (r, left) ↦ record {
      error = some (joined e (wrapped (codes "rollback transaction") r));
      retry_safe = false;
      state = left;
    }
    | none ↦ record { error = some e; retry_safe = true; state = before }
  ]

  unfoldable pub finish : Attempt S → S → Option Error × S → Ran S
  unfolding commit roll_back
  finish a before (some e, after) = roll_back a e before
  finish a before (none, after) = commit a before after

  -- `runTransactionAttempt`
  unfoldable pub run_attempt : Attempt S → S → Ran S
  unfolding finish
  run_attempt a s = elim a.begin_error [
    | some e ↦ record {
      error = some (wrapped (codes "begin transaction") e);
      retry_safe = true;
      state = s;
    }
    | none ↦ finish a s (a.body s)
  ]

-- `initialBackoff << (attempt - 1)` on 64 bits.
unfoldable pub pause : ℕ → ℕ → ℕ
pause initial_backoff attempt = (initial_backoff * 2 ^ (attempt - 1)) % 2 ^ 64

-- Whether the loop ends with the error of this attempt.
unfoldable pub gives_up : {S : Type 0} → Bool → ℕ → ℕ → Ran S → Error → Bool
gives_up is_sqlite attempts attempt r e =
    not r.retry_safe || not is_sqlite || not (is_busy_or_locked e) || attempt == attempts

module _ {S : Type 0} (is_sqlite : Bool) (attempts initial_backoff : ℕ) (env : ℕ → Attempt S) where
  -- The loop of `transactionWithRetry` from number `attempt` on, with the rounds left and the
  -- error of the last round.
  unfoldable pub retry_loop : ℕ → ℕ → Option Error → S → Outcome S
  unfolding gives_up
  retry_loop zero attempt last s = record { error = last; state = s; pauses = [] }
  retry_loop (suc left) attempt last s =
      let r = run_attempt (env attempt) s in
      elim r.error [
        | none ↦ record { error = none; state = r.state; pauses = [] }
        | some e ↦
            let rest = retry_loop left (attempt + 1) (some e) ((env attempt).others r.state) in
            if gives_up is_sqlite attempts attempt r e
            then record { error = some e; state = r.state; pauses = [] }
            else record rest { pauses = pause initial_backoff attempt ∷ rest.pauses }
      ]

-- `if attempts < 1 { attempts = 1 }`
abbrev pub at_least_one : ℤ → ℕ
at_least_one attempts = if ltb_ℤ attempts (pos 1) then 1 else pos_part attempts

module _ {S : Type 0} (is_sqlite : Bool) where
  -- `transactionWithRetry`; the flag is `engine.DriverName() == "sqlite"`.
  unfoldable pub transaction_with_retry : ℤ → ℕ → (ℕ → Attempt S) → S → Outcome S
  unfolding retry_loop
  transaction_with_retry attempts initial_backoff env s =
      let n = at_least_one attempts in retry_loop is_sqlite n initial_backoff env n 1 none s

  -- `Transaction`: three attempts, and 50 ms before the second.
  unfoldable pub transaction : (ℕ → Attempt S) → S → Outcome S
  unfolding transaction_with_retry
  transaction env s = transaction_with_retry (pos 3) 50_000_000 env s
