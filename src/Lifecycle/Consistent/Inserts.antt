-- ===== src/Lifecycle/Consistent/Inserts.antt =====
-- A claim and an insertion keep the tables consistent.
use nexusflow.Base.{
  ℕ, ◌≤◌, ◌≡◌, refl, Bool, false, inl, inr, some, List, [], ◌∷◌, ◌++◌, any, All-append, All-map,
  arith, Bool-cases, subst, ◌==◌, ==_iff,
}
use nexusflow.Store.Table.{update_where, row_count, select_first}
use nexusflow.Store.Table.Laws.{
  row_count-append, select_first-All, select_first-satisfies, select_first_unique,
  select_first-append, row_count-any,
}
use nexusflow.Store.Records.{TaskExecutionRecord, ExecutionAttemptRecord, is_task}
use nexusflow.Transactions.Ownership.{is_active_of, ownership_where, ownership_set, new_attempt}
use nexusflow.Lifecycle.Moves.{IsSound}
use nexusflow.Lifecycle.Effect.{TaskChange, IsNew}
use nexusflow.Lifecycle.Changes.{ownership-TaskChange}
use nexusflow.Lifecycle.Consistent.{IsHeld, IsIssued, Consistent}
use nexusflow.Lifecycle.Consistent.Updates.{found_after, Consistent-change}

-- The one new attempt of a RUNNING task that has no active attempt.
Consistent-attempt_new :
    (ts : List TaskExecutionRecord) (as_ : List ExecutionAttemptRecord)
    (new : ExecutionAttemptRecord)
    → any (is_active_of new.task_execution_id) as_ ≡ false
    → IsHeld ts new.task_execution_id
    → IsIssued ts new
    → Consistent ts as_
    → Consistent ts (as_ ++ new ∷ [])
unfolding row_count
Consistent-attempt_new ts as_ new free holder issued c = record {
  key = c.key;
  sound = c.sound;
  single = λ id. elim (Bool-cases (new.task_execution_id == id)) [
    | inl same ↦
        subst (λ i. row_count (is_active_of i) (as_ ++ new ∷ []) ≤ 1)
          ((==_iff new.task_execution_id id).0 same)
          (ground (
            arith,
            row_count-append (is_active_of new.task_execution_id) as_ (new ∷ []),
            row_count-any (is_active_of new.task_execution_id) as_ free,
          ))
    | inr other ↦ ground (arith, row_count-append (is_active_of id) as_ (new ∷ []), c.single id)
  ];
  held = λ id busy. elim (Bool-cases (new.task_execution_id == id)) [
    | inl same ↦ subst (IsHeld ts) ((==_iff new.task_execution_id id).0 same) holder
    | inr other ↦ c.held id (ground (arith, row_count-append (is_active_of id) as_ (new ∷ [])))
  ];
  issued = All-append (IsIssued ts) as_ (new ∷ []) c.issued (issued, tt);
}

pub Consistent-own :
    (ts : List TaskExecutionRecord) (as_ : List ExecutionAttemptRecord)
    (id revision workflow_id session attempt_id deadline now : ℕ) (t : TaskExecutionRecord)
    → any (is_active_of id) as_ ≡ false
    → select_first (ownership_where id revision workflow_id) ts ≡ some t
    → Consistent ts as_
    → Consistent
        (update_where (ownership_where id revision workflow_id) (ownership_set now) ts)
        (as_ ++ new_attempt id t.next_attempt_ordinal session attempt_id deadline now ∷ [])
Consistent-own ts as_ id revision workflow_id session attempt_id deadline now t free e c =
    Consistent-attempt_new _ as_ _ free
      (record { task = ownership_set now t; found = found; running = refl })
      (record {
        task = ownership_set now t;
        found = found;
        from_one = (select_first-All IsSound owned ts t c.sound e).first_ordinal;
        given_out = omega arith;
      })
      (Consistent-change change ts as_ (λ u i p _ _ r. ground arith) c)
  where
    change : TaskChange (ownership_where id revision workflow_id) (ownership_set now)
    change = ownership-TaskChange id revision workflow_id now

    owned : TaskExecutionRecord → Bool
    owned = ownership_where id revision workflow_id

    found :
        select_first
          (is_task id)
          (update_where (ownership_where id revision workflow_id) (ownership_set now) ts)
        ≡ some (ownership_set now t)
    found = ground (
      arith,
      select_first-satisfies (ownership_where id revision workflow_id) ts t e,
      found_after change ts id t
          (select_first_unique owned (is_task id) ts t (λ y h. ground arith) (c.key id) e),
    )

pub Consistent-insert :
    (ts : List TaskExecutionRecord) (as_ : List ExecutionAttemptRecord) (t : TaskExecutionRecord)
    → IsNew t
    → any (is_task t.task_execution_id) ts ≡ false
    → Consistent ts as_
    → Consistent (ts ++ t ∷ []) as_
unfolding row_count
Consistent-insert ts as_ t new absent c = record {
  key = λ id. elim (Bool-cases (t.task_execution_id == id)) [
    | inl same ↦
        subst (λ i. row_count (is_task i) (ts ++ t ∷ []) ≤ 1)
          ((==_iff t.task_execution_id id).0 same)
          (ground (
            arith,
            row_count-append (is_task t.task_execution_id) ts (t ∷ []),
            row_count-any (is_task t.task_execution_id) ts absent,
          ))
    | inr other ↦ ground (arith, row_count-append (is_task id) ts (t ∷ []), c.key id)
  ];
  sound = All-append IsSound ts (t ∷ []) c.sound (new-IsSound, tt);
  single = c.single;
  held = λ id busy.
      let h = c.held id busy in
      record {
        task = h.task;
        found = select_first-append (is_task id) ts (t ∷ []) h.task h.found;
        running = h.running;
      };
  issued =
      All-map (IsIssued ts) (IsIssued (ts ++ t ∷ [])) as_
        (λ a h. record {
          task = h.task;
          found = select_first-append (is_task a.task_execution_id) ts (t ∷ []) h.task h.found;
          from_one = h.from_one;
          given_out = h.given_out;
        })
        c.issued;
}
  where
    new-IsSound : IsSound t
    new-IsSound = ground (arith, new.first, new.attempts_allowed, new.is_pending)
