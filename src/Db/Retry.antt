-- ===== src/Db/Retry.antt =====
-- What a retried transaction leaves behind, and when it is retried.
use pmail.Base.{
  ℕ, zero, suc, ◌+◌, ◌≤◌, ◌<◌, ◌≡◌, refl, ap, ◌≢◌, ◌⊎◌, inl, inr, Bool, true, false, Option, none,
  some, List, [], ◌∷◌, arith, Bool-cases, Option-cases,
}
use mathlib.Core.Path.{subst}
use native.Mathlib.Nat.{add-zero}
use pmail.Db.{
  Error, is_busy_or_locked, Attempt, Ran, Outcome, run_attempt, pause, gives_up, retry_loop,
}

-- The pauses in front of `n` repetitions: each is twice the one before.
abbrev pub schedule : ℕ → ℕ → ℕ → List ℕ
schedule initial_backoff attempt zero = []
schedule initial_backoff attempt (suc n) =
    pause initial_backoff attempt ∷ schedule initial_backoff (attempt + 1) n

abbrev pub total : List ℕ → ℕ
total [] = 0
total (x ∷ xs) = x + total xs

pub total-schedule : (n : ℕ) → n < 3 → total (schedule 50_000_000 1 n) ≤ 150_000_000
unfolding pause
total-schedule zero h = omega arith
total-schedule (suc zero) h = omega arith
total-schedule (suc (suc zero)) h = omega arith
total-schedule (suc (suc (suc n))) h = absurd (omega arith)

module _ {S : Type 0} where
  -- What one attempt does where no ROLLBACK fails: it commits what the callback made of the
  -- database, or it fails, leaves the database alone and may be repeated.
  abbrev Atomic : Attempt S → S → Ran S → Type 0
  Atomic a s r =
      ((r.error ≡ none) × (a.body s ≡ (none, r.state)))
      ⊎ ((r.error ≢ none) × (r.state ≡ s) × (r.retry_safe ≡ true))

  run_attempt-Atomic :
      (a : Attempt S) (s : S) → a.rollback_error ≡ none → Atomic a s (run_attempt a s)
  unfolding run_attempt
  run_attempt-Atomic a s h = ground arith

  module _ (is_sqlite : Bool) (env : ℕ → Attempt S) where
    -- The database before the attempt that follows `n` failed ones, from number `attempt` on: only
    -- other connections have written to it.
    abbrev pub world : ℕ → ℕ → S → S
    world attempt zero s = s
    world attempt (suc n) s = world (attempt + 1) n ((env attempt).others s)

    -- The attempts from number `attempt` on that were repeated: each failed on SQLite with BUSY or
    -- LOCKED.
    abbrev pub AllBusy : ℕ → ℕ → S → Type 0
    AllBusy attempt zero s = Unit
    AllBusy attempt (suc n) s =
        ((e : Error) × ((run_attempt (env attempt) s).error ≡ some e)
          × (is_busy_or_locked e ≡ true)
          × (is_sqlite ≡ true))
        × AllBusy (attempt + 1) n ((env attempt).others s)

    -- The call ended with the attempt behind `n` failed ones. That one committed what the callback
    -- made of the database that it met, or it failed and left that database alone.
    pub record Settles (initial_backoff attempt left : ℕ) (s : S) (out : Outcome S) : Type 0 where
      pub failed : ℕ
      pub failed-lt : failed < left
      pub busy : AllBusy attempt failed s
      pub pauses : out.pauses ≡ schedule initial_backoff attempt failed
      pub last :
          ((out.error ≡ none)
            × ((env (attempt + failed)).body (world attempt failed s) ≡ (none, out.state)))
          ⊎ ((out.error ≢ none) × (out.state ≡ world attempt failed s))

  module _ (is_sqlite : Bool) (attempts initial_backoff : ℕ) (env : ℕ → Attempt S) where
    retry_loop-committed :
        (left attempt : ℕ) (last : Option Error) (s : S)
        → (run_attempt (env attempt) s).error ≡ none
        → retry_loop is_sqlite attempts initial_backoff env (suc left) attempt last s
          ≡ record { error = none; state = (run_attempt (env attempt) s).state; pauses = [] }
    unfolding retry_loop
    retry_loop-committed left attempt last s h = rw (h, retry_loop)

    retry_loop-gave_up :
        (left attempt : ℕ) (last : Option Error) (s : S) (e : Error)
        → (run_attempt (env attempt) s).error ≡ some e
        → gives_up is_sqlite attempts attempt (run_attempt (env attempt) s) e ≡ true
        → retry_loop is_sqlite attempts initial_backoff env (suc left) attempt last s
          ≡ record { error = some e; state = (run_attempt (env attempt) s).state; pauses = [] }
    unfolding retry_loop
    retry_loop-gave_up left attempt last s e h g = rw (h, g, retry_loop)

    retry_loop-repeated :
        (left attempt : ℕ) (last : Option Error) (s : S) (e : Error)
        → (run_attempt (env attempt) s).error ≡ some e
        → gives_up is_sqlite attempts attempt (run_attempt (env attempt) s) e ≡ false
        → let rest =
            retry_loop is_sqlite attempts initial_backoff env left
              (attempt + 1)
              (some e)
              ((env attempt).others (run_attempt (env attempt) s).state) in
          retry_loop is_sqlite attempts initial_backoff env (suc left) attempt last s
          ≡ record rest { pauses = pause initial_backoff attempt ∷ rest.pauses }
    unfolding retry_loop
    retry_loop-repeated left attempt last s e h g = rw (h, g, retry_loop)

  kept_state :
      (s : S) (a : Attempt S)
      → a.rollback_error ≡ none
      → (e : Error) → (run_attempt a s).error ≡ some e
      → (run_attempt a s).state ≡ s
  kept_state s a h e fail = ground (arith, run_attempt-Atomic a s h)

  gives_up_cases :
      (is_sqlite : Bool) (attempts attempt : ℕ) (r : Ran S) (e : Error)
      → gives_up is_sqlite attempts attempt r e ≡ false
      → (is_busy_or_locked e ≡ true) × (is_sqlite ≡ true) × (attempt ≢ attempts)
  unfolding gives_up
  gives_up_cases is_sqlite attempts attempt r e h = (ground arith, ground arith, ground arith)

  module _ (is_sqlite : Bool) (env : ℕ → Attempt S) (initial_backoff attempt left : ℕ) (s : S) where
    -- The call that ends with this attempt.
    Settles-ended :
        (out : Outcome S)
        → out.pauses ≡ []
        → Atomic
            (env attempt)
            s
            (record { error = out.error; retry_safe = true; state = out.state })
        → Settles is_sqlite env initial_backoff attempt (suc left) s out
    Settles-ended out p a = record {
      failed = 0;
      failed-lt = omega arith;
      busy = tt;
      pauses = p;
      last = rw add-zero (elim a [ inl done ↦ inl done | inr kept ↦ inr (kept.0, kept.1) ]);
    }

    Settles-repeated :
        (e : Error) (rest : Outcome S)
        → (run_attempt (env attempt) s).error ≡ some e
        → is_busy_or_locked e ≡ true
        → is_sqlite ≡ true
        → Settles is_sqlite env initial_backoff (attempt + 1) left ((env attempt).others s) rest
        → Settles is_sqlite env initial_backoff attempt
            (suc left)
            s
            (record rest { pauses = pause initial_backoff attempt ∷ rest.pauses })
    Settles-repeated e rest h b q later = record {
      failed = suc later.failed;
      failed-lt = omega (arith, later.failed-lt);
      busy = ((e, h, b, q), later.busy);
      pauses = ap (◌∷◌ (pause initial_backoff attempt)) later.pauses;
      last =
          subst
            (λ k.
              ((rest.error ≡ none)
                × ((env k).body
                      (world is_sqlite env (attempt + 1) later.failed ((env attempt).others s))
                    ≡ (none, rest.state)))
              ⊎ ((rest.error ≢ none)
                  × (rest.state
                      ≡ world is_sqlite env (attempt + 1) later.failed ((env attempt).others s))))
            (omega arith) later.last;
    }

  module _ (is_sqlite : Bool) (attempts initial_backoff : ℕ) (env : ℕ → Attempt S) where
    retry_loop-ended :
        (left attempt : ℕ) (last : Option Error) (s : S) (o : Option Error)
        → (env attempt).rollback_error ≡ none
        → (run_attempt (env attempt) s).error ≡ o
        → ((e : Error)
            → o ≡ some e
            → gives_up is_sqlite attempts attempt (run_attempt (env attempt) s) e ≡ true)
        → Settles is_sqlite env initial_backoff attempt
            (suc left)
            s
            (retry_loop is_sqlite attempts initial_backoff env (suc left) attempt last s)
    retry_loop-ended left attempt last s none unhurt h g =
        rw (retry_loop-committed is_sqlite attempts initial_backoff env left attempt last s h) (
          Settles-ended is_sqlite env initial_backoff attempt left s _ refl
            (ground (arith, run_attempt-Atomic (env attempt) s unhurt)))
    retry_loop-ended left attempt last s (some e) unhurt h g =
        rw
          (retry_loop-gave_up is_sqlite attempts initial_backoff env left attempt last s e h
            (g e refl))
          (Settles-ended is_sqlite env initial_backoff attempt left s _ refl
            (ground (arith, run_attempt-Atomic (env attempt) s unhurt)))

    pub retry_loop-Settles :
        (left attempt : ℕ) (last : Option Error) (s : S)
        → ((k : ℕ) → (env k).rollback_error ≡ none)
        → left + attempt ≡ attempts
        → Settles is_sqlite env initial_backoff attempt
            (suc left)
            s
            (retry_loop is_sqlite attempts initial_backoff env (suc left) attempt last s)
    retry_loop-Settles zero attempt last s unhurt count =
        retry_loop-ended zero attempt last s _ (unhurt attempt) refl (λ e h.
          elim (Bool-cases (gives_up is_sqlite attempts attempt (run_attempt (env attempt) s) e)) [
            | inl g ↦ g
            | inr g ↦ absurd ((gives_up_cases is_sqlite attempts attempt _ e g).2 (omega arith))
          ])
    retry_loop-Settles (suc left) attempt last s unhurt count =
        elim (Option-cases (run_attempt (env attempt) s).error) [
          | inl done ↦
              retry_loop-ended (suc left) attempt last s none (unhurt attempt) done (λ e x. cc)
          | inr (e, h) ↦
              elim (Bool-cases
                (gives_up is_sqlite attempts attempt (run_attempt (env attempt) s) e)) [
                  | inl g ↦
                      retry_loop-ended (suc left) attempt last s (some e) (unhurt attempt) h
                        (λ e' x. cc)
                  | inr g ↦
                      let c =
                        gives_up_cases is_sqlite attempts attempt (run_attempt (env attempt) s) e
                          g in
                      rw
                        (
                          retry_loop-repeated is_sqlite attempts initial_backoff env (suc left)
                              attempt last s e h g,
                          kept_state s (env attempt) (unhurt attempt) e h,
                        )
                        (Settles-repeated is_sqlite env initial_backoff attempt (suc left) s e _ h
                          c.0 c.1
                          (retry_loop-Settles left (attempt + 1) (some e) ((env attempt).others s)
                            unhurt (omega arith)))
                ]
        ]
