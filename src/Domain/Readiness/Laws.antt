-- ===== src/Domain/Readiness/Laws.antt =====
-- src/nexusflow/domain/readiness.py: the readiness of a task and the states of its dependencies.
use nexusflow.Base.{
  String, ◌≡◌, refl, inl, inr, Bool, true, none, some, List, [], ◌∷◌, contains, every, str_eq,
  eq_iff, arith, subst, Bool-cases, Option-cases,
}
use nexusflow.Domain.Json.{JsonValue, JsonObject, end, entry}
use nexusflow.Domain.Spec.{InputBinding, literal, workflow_input, task_output}
use nexusflow.Domain.WorkflowState
use nexusflow.Domain.TaskState
use nexusflow.Domain.Readiness.{
  DependencyStateSnapshot, TaskReadinessSnapshot, is_ready, get, dependency_problem,
  dependencies_problem, binding_value, resolve_bindings, evaluate_task_readiness,
}

-- The dependency is recorded, SUCCEEDED, and has an output.
pub record IsDone (upstream : List (String × DependencyStateSnapshot)) (dep_id : String)
    : Type 0 where
  pub dep : DependencyStateSnapshot
  pub recorded : get dep_id upstream ≡ some dep
  pub succeeded : TaskState.is_succeeded dep.state ≡ true
  pub output : dep.has_output ≡ true

module _ (upstream : List (String × DependencyStateSnapshot)) where
  dependency-IsDone :
      (dep_id : String) → dependency_problem (get dep_id upstream) ≡ none → IsDone upstream dep_id
  dependency-IsDone dep_id e = elim (Option-cases (get dep_id upstream)) [
    | inl missing ↦ absurd (ground (arith, rw missing at e))
    | inr (dep, found) ↦ record {
      dep = dep;
      recorded = found;
      succeeded = ground (arith, rw found at e);
      output = ground (arith, rw found at e);
    }
  ]

  dependencies-IsDone :
      (dep_ids : List String)
      → dependencies_problem upstream dep_ids ≡ none
      → (dep_id : String) → contains dep_ids dep_id ≡ true
      → IsDone upstream dep_id
  dependencies-IsDone [] e dep_id h = absurd (cc)
  dependencies-IsDone (d ∷ ds) e dep_id h =
      elim (Option-cases (dependency_problem (get d upstream))) [
        | inr (reason, bad) ↦ absurd (ground (arith, rw bad at e))
        | inl fine ↦ elim (Bool-cases (str_eq d dep_id)) [
          | inl same ↦ subst (IsDone upstream) ((eq_iff d dep_id).0 same) (dependency-IsDone d fine)
          | inr other ↦ dependencies-IsDone ds (rw fine at e) dep_id (ground (arith, h, other))
        ]
      ]

  done_fine :
      (dep_ids : List String)
      → ((dep_id : String) → contains dep_ids dep_id ≡ true → IsDone upstream dep_id)
      → dependencies_problem upstream dep_ids ≡ none
  done_fine [] all_done = refl
  done_fine (d ∷ ds) all_done =
      let first = all_done d (ground (arith, (eq_iff d d).1 refl)) in
      rw (first.recorded, first.succeeded, first.output)
        (done_fine ds (λ dep_id h. all_done dep_id (ground (arith, h))))

  -- A binding that takes its value from a dependency, if from a task.
  abbrev pub is_covered : List String → InputBinding → Bool
  is_covered dep_ids (literal value) = true
  is_covered dep_ids workflow_input = true
  is_covered dep_ids (task_output upstream_task_id) = contains dep_ids upstream_task_id

  module _ (input : JsonValue) (dep_ids : List String)
      (all_done : (dep_id : String) → contains dep_ids dep_id ≡ true → IsDone upstream dep_id) where
    covered_value :
        (binding : InputBinding)
        → is_covered dep_ids binding ≡ true
        → (value : JsonValue) × (binding_value input upstream binding ≡ some value)
    covered_value (literal value) e = (value, refl)
    covered_value workflow_input e = (input, refl)
    covered_value (task_output upstream_task_id) e =
        let done = all_done upstream_task_id e in
        (done.dep.output_value, rw (done.recorded, done.output) refl)

    covered_input :
        (bindings : List (String × InputBinding))
        → every (λ b. is_covered dep_ids b.1) bindings ≡ true
        → (resolved : JsonObject) × (resolve_bindings input upstream bindings ≡ some resolved)
    covered_input [] e = (end, refl)
    covered_input ((name, binding) ∷ bindings) e =
        let value = covered_value binding (ground (arith, e)) in
        let rest = covered_input bindings (ground (arith, e)) in
        (entry name value.0 rest.0, rw (value.1, rest.1) refl)

module _ (snapshot : TaskReadinessSnapshot) where
  -- A task that is found ready is PENDING in a RUNNING workflow, and each dependency of its
  -- definition is recorded, SUCCEEDED, and has an output.
  pub evaluate_task_readiness-IsDone :
      (evaluate_task_readiness snapshot).ready ≡ true
      → (WorkflowState.is_running snapshot.workflow_state ≡ true)
        × (TaskState.is_pending snapshot.task_state ≡ true)
        × ((dep_id : String)
            → contains snapshot.task_definition.dependencies dep_id ≡ true
            → IsDone snapshot.upstream_dependencies dep_id)
  unfolding evaluate_task_readiness
  evaluate_task_readiness-IsDone e =
      elim (Bool-cases (WorkflowState.is_running snapshot.workflow_state)) [
        | inr stopped ↦ absurd (ground (arith, rw stopped at e))
        | inl runs ↦ elim (Bool-cases (TaskState.is_pending snapshot.task_state)) [
          | inr moved ↦ absurd (ground (arith, rw (runs, moved) at e))
          | inl waits ↦ (
            runs,
            waits,
            dependencies-IsDone snapshot.upstream_dependencies snapshot.task_definition.dependencies
                (fine waits runs),
          )
        ]
      ]
    where
      fine :
          TaskState.is_pending snapshot.task_state ≡ true
          → WorkflowState.is_running snapshot.workflow_state ≡ true
          → dependencies_problem snapshot.upstream_dependencies
              snapshot.task_definition.dependencies
            ≡ none
      fine waits runs =
          elim (Option-cases (
            dependencies_problem snapshot.upstream_dependencies
              snapshot.task_definition.dependencies)) [
                | inl good ↦ good
                | inr (reason, bad) ↦ absurd (ground (arith, rw (runs, waits, bad) at e))
              ]

  -- A PENDING task of a RUNNING workflow, each of whose dependencies is recorded, SUCCEEDED and has
  -- an output, and whose task output bindings name dependencies, is found ready with an input.
  pub evaluate_task_readiness_complete :
      WorkflowState.is_running snapshot.workflow_state ≡ true
      → TaskState.is_pending snapshot.task_state ≡ true
      → ((dep_id : String)
          → contains snapshot.task_definition.dependencies dep_id ≡ true
          → IsDone snapshot.upstream_dependencies dep_id)
      → every
          (λ b. is_covered snapshot.upstream_dependencies snapshot.task_definition.dependencies b.1)
          snapshot.task_definition.input_bindings
        ≡ true
      → (input : JsonObject) × (evaluate_task_readiness snapshot
          ≡ record { ready = true; resolved_input = some input; reason = is_ready })
  unfolding evaluate_task_readiness
  evaluate_task_readiness_complete runs waits all_done covered =
      let resolved =
        covered_input snapshot.upstream_dependencies snapshot.workflow_input
          snapshot.task_definition.dependencies all_done snapshot.task_definition.input_bindings
          covered in
      (
        resolved.0,
        rw
            (
              runs,
              waits,
              done_fine snapshot.upstream_dependencies snapshot.task_definition.dependencies
                  all_done,
              resolved.1,
            )
            refl,
      )
