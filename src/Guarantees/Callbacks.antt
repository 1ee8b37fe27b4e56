-- ===== src/Guarantees/Callbacks.antt =====
-- src/nexusflow/persistence/transactions.py: a worker that reports its start again.
use mathlib.Core.Option.{some-injective}
use nexusflow.Base.{
  ℕ, ◌≤◌, ◌≡◌, ◌∙◌, refl, sym, ap, inl, inr, Bool, true, Option, none, some, ◌&&◌, ◌==◌, arith,
  Option-cases, Bool-cases, subst,
}
use nexusflow.Domain.AttemptState
use nexusflow.Store.Table.{select_first, row_count, update_where}
use nexusflow.Store.Table.Laws.{
  select_first_unique, select_first_finer, select_first-satisfies, select_first-update_where,
  row_count-update_le, update_where_absent,
}
use nexusflow.Store.Records.{Db, ExecutionAttemptRecord, is_attempt}
use nexusflow.Transactions.Outcome.{committed, occ_conflict}
use nexusflow.Transactions.Ownership.{
  commit_worker_execution_start, start, start_where, start_set, already_started,
}

-- The attempt of this id and session.
abbrev is_of_session : ℕ → ℕ → ExecutionAttemptRecord → Bool
is_of_session attempt_id session a = is_attempt attempt_id a && a.worker_session_id == session

-- The attempt is RUNNING for this session, and the only one of its id.
record IsStarted (attempt_id session : ℕ) (db : Db) : Type 0 where
  row : ExecutionAttemptRecord
  found : select_first (is_of_session attempt_id session) db.attempts ≡ some row
  running : AttemptState.is_running row.state ≡ true
  only : row_count (is_attempt attempt_id) db.attempts ≤ 1

module _ (attempt_id session : ℕ) (db : Db) where
  not_claimed :
      (revision now : ℕ)
      → IsStarted attempt_id session db
      → select_first (start_where attempt_id session revision now) db.attempts ≡ none
  not_claimed revision now s =
      elim (Option-cases (select_first (start_where attempt_id session revision now) db.attempts)) [
        | inl missing ↦ missing
        | inr (y, e) ↦
            let at_y =
              select_first_unique (start_where attempt_id session revision now)
                (is_attempt attempt_id) db.attempts y (λ a h. ground arith) s.only e in
            let at_row =
              select_first_unique (is_of_session attempt_id session) (is_attempt attempt_id)
                db.attempts s.row (λ a h. ground arith) s.only s.found in
            let same : y ≡ s.row = some-injective _ _ (sym at_y ∙ at_row) in
            absurd (
              ground (
                arith,
                s.running,
                ap (λ a. a.state) same,
                select_first-satisfies (start_where attempt_id session revision now) db.attempts y
                    e,
              ))
      ]

  IsStarted-again :
      (revision uuid4 now : ℕ)
      → IsStarted attempt_id session db
      → commit_worker_execution_start attempt_id session revision uuid4 now db ≡ (committed, db)
  unfolding commit_worker_execution_start
  IsStarted-again revision uuid4 now s =
      rw
        (
          not_claimed revision now s,
          update_where_absent (start_where attempt_id session revision now) (start_set now)
              db.attempts (not_claimed revision now s),
          s.found,
          s.running,
        )
        refl

module _ (attempt_id session revision uuid4 now : ℕ) (db : Db)
    (only : row_count (is_attempt attempt_id) db.attempts ≤ 1) where
  abbrev started : ExecutionAttemptRecord → Bool
  started = start_where attempt_id session revision now

  only_after :
      row_count (is_attempt attempt_id) (update_where started (start_set now) db.attempts) ≤ 1
  only_after = omega (
    arith,
    only,
    row_count-update_le (is_attempt attempt_id) started (start_set now) db.attempts (λ a h k. k),
  )

  found_after :
      (a : ExecutionAttemptRecord)
      → select_first started db.attempts ≡ some a
      → select_first
          (is_of_session attempt_id session)
          (update_where started (start_set now) db.attempts)
        ≡ some (start_set now a)
  found_after a e =
      let hit = select_first-satisfies started db.attempts a e in
      let first =
        select_first_unique started (is_attempt attempt_id) db.attempts a (λ b h. ground arith) only
          e in
      let of_session =
        select_first_finer (is_of_session attempt_id session) (is_attempt attempt_id) db.attempts a
          (λ b h. ground arith) first (ground (arith, hit)) in
      select_first-update_where (is_of_session attempt_id session) started (start_set now)
        db.attempts a (λ b. refl) of_session
      ∙ rw hit refl

  found_running :
      (row : Option ExecutionAttemptRecord)
      → already_started row ≡ committed
      → (b : ExecutionAttemptRecord) × (row ≡ some b) × (AttemptState.is_running b.state ≡ true)
  found_running none e = absurd (cc)
  found_running (some b) e = elim (Bool-cases (AttemptState.is_running b.state)) [
    | inl runs ↦ (b, refl, runs)
    | inr other ↦ absurd (conflict_apart (rw other at e))
  ]
    where
      conflict_apart : occ_conflict ≡ committed → ⊥
      conflict_apart e = cc

  start-IsStarted :
      (row : Option ExecutionAttemptRecord) (db' : Db)
      → select_first started db.attempts ≡ row
      → start attempt_id session revision
          (row, record db { attempts = update_where started (start_set now) db.attempts })
          uuid4
          now
        ≡ (committed, db')
      → IsStarted attempt_id session db'
  start-IsStarted none db' e answer =
      let b = found_running _ (ap (λ o. o.0) answer) in
      subst (IsStarted attempt_id session) (ap (λ o. o.1) answer)
        (record { row = b.0; found = b.1; running = b.2; only = only_after })
  start-IsStarted (some a) db' e answer =
      subst (IsStarted attempt_id session) (ap (λ o. o.1) answer) (record {
        row = start_set now a;
        found = found_after a e;
        running = refl;
        only = only_after;
      })

-- Where attempt ids are unique, a start that was COMMITTED and that the same worker session reports
-- again, under any revision and time, to the database that the first report left, is COMMITTED again
-- and writes nothing.
pub commit_worker_execution_start-again :
    (attempt_id session revision uuid4 now : ℕ) (db db' : Db)
    → row_count (is_attempt attempt_id) db.attempts ≤ 1
    → commit_worker_execution_start attempt_id session revision uuid4 now db ≡ (committed, db')
    → (revision2 uuid4_2 now2 : ℕ)
    → commit_worker_execution_start attempt_id session revision2 uuid4_2 now2 db' ≡ (committed, db')
unfolding commit_worker_execution_start
commit_worker_execution_start-again attempt_id session revision uuid4 now db db' only answer
      revision2 uuid4_2 now2 =
    IsStarted-again attempt_id session db' revision2 uuid4_2 now2
      (start-IsStarted attempt_id session revision uuid4 now db only _ db' refl answer)
