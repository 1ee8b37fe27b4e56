-- ===== src/Orchestration/Pass.antt =====
-- A pass of the orchestration: code that opens one session after another, reads clocks and looks up
-- workers between them, and may raise. What earlier sessions have committed stays when it raises.
use nexusflow.Base.{
  ℕ, String, ◌+◌, Option, List, [], ◌∷◌, ◌++◌, Result, ok, err, any, if◌then◌else◌,
}
use nexusflow.Domain.Json.{PyValue}
use nexusflow.Domain.WorkflowState.{WorkflowState}
use nexusflow.Store.Records.{Db}
use nexusflow.Orchestration.Registry.{
  WorkerRegistry, WorkerSessionSnapshot, is_session, find_eligible_worker_for_activity,
  find_lost_sessions,
}

-- What a delivery queue holds.
pub data Delivery : Type 0 where
  assignment :
      (attempt_id attempt_ordinal task_execution_id workflow_execution_id worker_session_id : ℕ)
      (activity_type : String) (stable_input : PyValue) (start_deadline_utc : ℕ)
      → Delivery
  cancel_command :
      (attempt_id worker_session_id task_execution_id workflow_execution_id : ℕ)
      (reason : WorkflowState)
      → Delivery

-- What surrounds a pass. At its i-th access to anything outside itself, `others i` is what the other
-- transactions have meanwhile done to the database, and `registry i` the registry as it then is.
pub record Setting : Type 0 where
  pub others : ℕ → Db → Db
  pub registry : ℕ → WorkerRegistry
  pub clock : ℕ → ℕ
  pub monotonic : ℕ → ℕ
  pub uuid4 : ℕ → ℕ
  pub start_deadline : ℕ

-- `deliveries` are the items that the pass has put on queues, each with the session of the queue.
pub record World : Type 0 where
  pub db : Db
  pub instant : ℕ
  pub deliveries : List (ℕ × Delivery)

abbrev pub Pass : Type 0 → Type 0
Pass A = World → Result A × World

abbrev pub continue_with : {A B : Type 0} → Result A × World → (A → Pass B) → Result B × World
continue_with (ok x, w) f = f x w
continue_with (err e, w) f = (err e, w)

infixl 5 ◌>>=◌ ◌>>◌
unfoldable pub ◌>>=◌ : {A B : Type 0} → Pass A → (A → Pass B) → Pass B
(p >>= f) w = continue_with (p w) f

unfoldable pub ◌>>◌ : {A B : Type 0} → Pass A → Pass B → Pass B
(p >> q) w = continue_with (p w) (λ x. q)

unfoldable pub return : {A : Type 0} → A → Pass A
return x w = (ok x, w)

-- A computation that may raise.
unfoldable pub lift : {A : Type 0} → Result A → Pass A
lift r w = (r, w)

unfoldable pub done : Pass (Unit {0})
done w = (ok tt, w)

unfoldable pub for_each : {A : Type 0} → List A → (A → Pass (Unit {0})) → Pass (Unit {0})
unfolding ◌>>◌ done
for_each [] body = done
for_each (x ∷ xs) body = body x >> for_each xs body

-- The sum of what the body returns.
unfoldable pub sum_each : {A : Type 0} → List A → (A → Pass ℕ) → Pass ℕ
unfolding ◌>>=◌ return
sum_each [] body = return 0
sum_each (x ∷ xs) body = body x >>= λ n. sum_each xs body >>= λ m. return (n + m)

abbrev pub left_behind : {A : Type 0} → Db → Result (A × Db) → Result A × Db
left_behind db (ok (x, db')) = (ok x, db')
left_behind db (err e) = (err e, db)

module _ (setting : Setting) where
  -- The database that the pass finds.
  abbrev pub found_db : World → Db
  found_db w = setting.others w.instant w.db

  abbrev pub later : Db → World → World
  later db w = record w { db = db; instant = w.instant + 1 }

  -- SELECT
  unfoldable pub look : {A : Type 0} → (Db → A) → Pass A
  look f w = (ok (f (found_db w)), later (found_db w) w)

  -- A transaction that never raises.
  unfoldable pub transact : {A : Type 0} → (Db → A × Db) → Pass A
  transact f w = let r = f (found_db w) in (ok r.0, later r.1 w)

  -- A transaction that is rolled back where it raises.
  unfoldable pub transact_or_raise : {A : Type 0} → (Db → Result (A × Db)) → Pass A
  transact_or_raise f w = let r = left_behind (found_db w) (f (found_db w)) in (r.0, later r.1 w)

  -- datetime.now(UTC)
  unfoldable pub now : Pass ℕ
  now w = (ok (setting.clock w.instant), later w.db w)

  unfoldable pub generate : Pass ℕ
  generate w = (ok (setting.uuid4 w.instant), later w.db w)

  unfoldable pub find_worker : String → Pass (Option WorkerSessionSnapshot)
  unfolding find_eligible_worker_for_activity
  find_worker activity_type w = (
    ok (
        find_eligible_worker_for_activity activity_type (setting.monotonic w.instant)
          (setting.registry w.instant)),
    later w.db w,
  )

  unfoldable pub lost_sessions : Pass (List ℕ)
  unfolding find_lost_sessions
  lost_sessions w = (
    ok (find_lost_sessions (setting.monotonic w.instant) (setting.registry w.instant)),
    later w.db w,
  )

  -- WorkerRegistry.queue_delivery: a session that is not known has no queue.
  unfoldable pub queue_delivery : ℕ → Delivery → Pass (Unit {0})
  queue_delivery session_id item w = (
    ok tt,
    record w {
      instant = w.instant + 1;
      deliveries =
          if any (is_session session_id) (setting.registry w.instant).sessions
          then w.deliveries ++ (session_id, item) ∷ []
          else w.deliveries;
    },
  )
