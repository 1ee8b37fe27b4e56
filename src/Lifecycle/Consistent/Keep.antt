-- ===== src/Lifecycle/Consistent/Keep.antt =====
-- Each effect keeps the tables consistent.
use nexusflow.Base.{ℕ, ◌<◌, ◌≡◌, true, List, arith, subst}
use nexusflow.Domain.TaskState
use nexusflow.Store.Table.{update_where, row_count}
use nexusflow.Store.Records.{TaskExecutionRecord, ExecutionAttemptRecord, is_task}
use nexusflow.Transactions.Ownership.{is_active_of}
use nexusflow.Lifecycle.Effect.{
  Inserted, nothing, one_more, Effect, idle, move, touch, settle, own, insert,
}
use nexusflow.Lifecycle.Consistent.{Consistent}
use nexusflow.Lifecycle.Consistent.Updates.{Consistent-change, Consistent-attempt, none_active}
use nexusflow.Lifecycle.Consistent.Inserts.{Consistent-own, Consistent-insert}

Inserted-Consistent :
    {ts us : List TaskExecutionRecord} (as_ : List ExecutionAttemptRecord)
    → Inserted ts us
    → Consistent ts as_
    → Consistent us as_
Inserted-Consistent as_ nothing c = c
Inserted-Consistent as_ (one_more {us} t before new absent) c =
    Consistent-insert us as_ t new absent (Inserted-Consistent as_ before c)

-- Every effect keeps the tables consistent.
pub Effect-Consistent :
    {ts ts' : List TaskExecutionRecord} {as_ as' : List ExecutionAttemptRecord}
    → Effect ts as_ ts' as'
    → Consistent ts as_
    → Consistent ts' as'
Effect-Consistent idle c = c
Effect-Consistent {ts} {as_ = as_} (move p f change quiet) c =
    Consistent-change change ts as_ (λ t id e _ _ r. ground (arith, quiet t e)) c
Effect-Consistent {ts} {as_ = as_} (touch p f change) c = Consistent-attempt change ts as_ c
Effect-Consistent {ts} {as_ = as_} (settle id q g p f change inside gone a e tasks of_id) c =
    Consistent-change tasks ts (update_where q g as_) apart (Consistent-attempt change ts as_ c)
  where
    apart :
        (t : TaskExecutionRecord) (i : ℕ)
        → p t ≡ true
        → is_task i t ≡ true
        → 0 < row_count (is_active_of i) (update_where q g as_)
        → TaskState.is_running t.state ≡ true
        → ⊥
    apart t i e' here busy r =
        let same : i ≡ id = ground (arith, of_id t e') in
        let none_left = none_active id q g as_ a inside gone (c.single id) e in
        omega (
          arith,
          none_left,
          subst (λ k. 0 < row_count (is_active_of k) (update_where q g as_)) same busy,
        )
Effect-Consistent {ts} {as_ = as_}
      (own id revision workflow_id session attempt_id deadline now t free e) c =
    Consistent-own ts as_ id revision workflow_id session attempt_id deadline now t free e c
Effect-Consistent {as_ = as_} (insert new) c = Inserted-Consistent as_ new c
