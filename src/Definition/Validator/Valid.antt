-- ===== src/Definition/Validator/Valid.antt =====
-- src/nexusflow/definition/validator.py: which definitions SemanticValidator.validate accepts.
use nexusflow.Base.{
  ℕ, value_error, ◌+◌, ◌≤◌, ◌≡◌, ◌↔◌, refl, sym, ap, ◌∙◌, String, Bool, true, false, some, none,
  Option, List, [], ◌∷◌, map, Result, ok, err, All, arith, length, contains, str_eq, eq_iff,
  if◌then◌else◌, ◌>>=◌, ◌&&◌, ◌==◌, Bool-cases, inl, inr,
}
use nexusflow.Domain.Spec.{TaskDefinition, CandidateWorkflowSpec}
use nexusflow.Domain.Graph.{
  CanonicalGraph, nodes_of, dependencies_of, canonical_graph,
  build_canonical_graph_and_verify_acyclic,
}
use nexusflow.Domain.Graph.Bags.{occurrences}
use nexusflow.Domain.Graph.Acyclic.{Ranked}
use nexusflow.Domain.Graph.Verified.{
  Tasks, IsMapping, all_known, build_canonical_graph_and_verify_acyclic-Ranked,
}
use nexusflow.Definition.Validator.{
  Progress, going, returned, next, put, put_all, task_map, check_references, check_tasks,
  check_outputs, accepted, promote, verify, validate, validate_tasks, ValidationOutcome,
  ValidatedDefinitionResult,
}
use nexusflow.Definition.Validator.Decides.{Decides, next-Decides}
use nexusflow.Definition.Validator.Accepts.{SoundTask, check_tasks-Decides, check_outputs-Decides}

-- A frozenset has each member once.
abbrev pub IsSets : List TaskDefinition → Type 0
IsSets ts = All (λ t. (d : String) → occurrences d t.dependencies ≤ 1) ts

put_nodes :
    (t : TaskDefinition) (m : Tasks) (x : String)
    → occurrences x (nodes_of (put t m))
      ≡ occurrences x (nodes_of m)
        + (if str_eq t.id x && occurrences x (nodes_of m) == 0 then 1 else 0)
put_nodes t [] x = ground arith
put_nodes t ((key, u) ∷ rest) x =
    let ih = put_nodes t rest x in
    elim (Bool-cases (str_eq key t.id)) [
      | inl same ↦ rw same (ground (arith, ap (λ k. str_eq k x) ((eq_iff key t.id).0 same)))
      | inr other ↦ elim (Bool-cases (str_eq t.id x)) [
        | inl here ↦
            let apart = sym (ap (str_eq key) ((eq_iff t.id x).0 here)) ∙ other in
            rw other (ground (arith, ih, apart, here))
        | inr there ↦ rw other (ground (arith, ih, there))
      ]
    ]

put_sets :
    (t : TaskDefinition) (m : Tasks)
    → ((d : String) → occurrences d t.dependencies ≤ 1)
    → All (λ e. (d : String) → occurrences d e.1.dependencies ≤ 1) m
    → All (λ e. (d : String) → occurrences d e.1.dependencies ≤ 1) (put t m)
put_sets t [] set sets = (set, tt)
put_sets t ((key, u) ∷ rest) set sets = elim (Bool-cases (str_eq key t.id)) [
  | inl same ↦ rw same ((set, sets.1))
  | inr other ↦ rw other ((sets.0, put_sets t rest set sets.1))
]

put_all-IsMapping :
    (ts : List TaskDefinition) (m : Tasks) → IsSets ts → IsMapping m → IsMapping (put_all ts m)
put_all-IsMapping [] m sets mapping = mapping
put_all-IsMapping (t ∷ ts) m sets mapping = put_all-IsMapping ts (put t m) sets.1 (record {
  distinct = λ x. ground (arith, put_nodes t m x, mapping.distinct x);
  sets = put_sets t m sets.0 mapping.sets;
})

abbrev task_ids : CandidateWorkflowSpec → List String
task_ids candidate = map (λ t. t.id) candidate.tasks

-- The definition has a task; its tasks keep to the limit of attempts, declare dependencies once and on
-- other tasks, and take inputs from dependencies; its outputs come from tasks; and its dependencies
-- are tasks and raise a rank, so that they have no cycle.
pub record IsValid (limit : ℕ) (candidate : CandidateWorkflowSpec) : Type 0 where
  pub nonempty : 1 ≤ length candidate.tasks
  pub tasks : All (SoundTask (task_ids candidate) limit candidate.raw_dependencies) candidate.tasks
  pub outputs :
      All (λ b. contains (task_ids candidate) b.1.source_task_id ≡ true) candidate.output_bindings
  pub known : all_known (task_map candidate.tasks) ≡ true
  pub ranked : Ranked (dependencies_of (task_map candidate.tasks))

abbrev succeeds_with : Option ValidatedDefinitionResult → ℕ
succeeds_with none = 0
succeeds_with (some result) = 1

abbrev succeeds : Result ValidationOutcome → ℕ
succeeds (ok outcome) = succeeds_with outcome.success
succeeds (err e) = 0

abbrev is_ok : {A : Type 0} → Result A → ℕ
is_ok (ok x) = 1
is_ok (err e) = 0

abbrev cycles : Result (CanonicalGraph × List (List String)) → List (List String)
cycles (ok (graph, errors)) = errors
cycles (err e) = []

promoted_of :
    (limit max_errors : ℕ) (candidate : CandidateWorkflowSpec)
    (r : Result (CanonicalGraph × List (List String)))
    → succeeds (r >>= λ built. ok (promote limit max_errors candidate built)) ≡ 1
    → (is_ok r ≡ 1) × (cycles r ≡ [])
promoted_of limit max_errors candidate (ok (graph, [])) e = (refl, refl)
promoted_of limit max_errors candidate (ok (graph, m ∷ ms)) e = absurd (omega (arith, e))
promoted_of limit max_errors candidate (err x) e = absurd (omega (arith, e))

module _ (limit max_errors : ℕ) (candidate : CandidateWorkflowSpec)
    (sets : IsSets candidate.tasks) where
  abbrev outcome : ValidationOutcome
  outcome = accepted limit max_errors candidate (canonical_graph (task_map candidate.tasks))

  mapping : IsMapping (task_map candidate.tasks)
  mapping =
      put_all-IsMapping candidate.tasks [] sets (record { distinct = λ x. omega arith; sets = tt })

  references-Decides :
      Decides
        ((All (SoundTask (task_ids candidate) limit candidate.raw_dependencies) candidate.tasks)
          × (All
              (λ b. contains (task_ids candidate) b.1.source_task_id ≡ true)
              candidate.output_bindings))
        (λ es.
          next
            (check_tasks limit max_errors
              (task_ids candidate)
              candidate.raw_dependencies
              candidate.tasks
              es)
            (check_outputs limit max_errors (task_ids candidate) candidate.output_bindings))
  references-Decides =
      next-Decides _ _
        (check_tasks-Decides (task_ids candidate) limit max_errors candidate.raw_dependencies
          candidate.tasks)
        (check_outputs-Decides (task_ids candidate) limit max_errors candidate.output_bindings)

  abbrev build : Result (CanonicalGraph × List (List String))
  build = build_canonical_graph_and_verify_acyclic (task_map candidate.tasks)

  verified_of :
      (r : Result Progress)
      → succeeds (r >>= verify limit max_errors candidate) ≡ 1
      → (r ≡ ok (going [])) × (succeeds (verify limit max_errors candidate (going [])) ≡ 1)
  verified_of (ok (going [])) e = (refl, e)
  verified_of (ok (going (x ∷ es))) e = absurd (omega (arith, e))
  verified_of (ok (returned es)) e = absurd (omega (arith, e))
  verified_of (err x) e = absurd (omega (arith, e))

  begun_of :
      (ts : List TaskDefinition)
      → succeeds (validate_tasks limit max_errors candidate ts) ≡ 1
      → (1 ≤ length ts)
        × (succeeds
              (check_references limit max_errors candidate >>= verify limit max_errors candidate)
            ≡ 1)
  begun_of [] e = absurd (omega (arith, e))
  begun_of (t ∷ ts) e = (omega arith, e)

  known_of : (b : Bool) → all_known (task_map candidate.tasks) ≡ b → is_ok build ≡ 1 → b ≡ true
  unfolding build_canonical_graph_and_verify_acyclic
  known_of true e is = refl
  known_of false e is = absurd (omega (arith, is, ap is_ok (refused_build e)))
    where
      refused_build : all_known (task_map candidate.tasks) ≡ false → build ≡ err value_error
      refused_build e = rw e refl

  begins :
      (ts : List TaskDefinition)
      → 1 ≤ length ts
      → validate_tasks limit max_errors candidate ts
        ≡ (check_references limit max_errors candidate >>= verify limit max_errors candidate)
  begins [] h = absurd (omega (arith, h))
  begins (t ∷ ts) h = refl

  accepted-IsValid : validate limit max_errors candidate ≡ ok outcome → IsValid limit candidate
  unfolding validate
  accepted-IsValid e =
      let begun = begun_of candidate.tasks (ap succeeds e) in
      let checked = verified_of (check_references limit max_errors candidate) begun.1 in
      let promoted = promoted_of limit max_errors candidate build checked.1 in
      let found = references-Decides.holds checked.0 in
      let known = known_of (all_known (task_map candidate.tasks)) refl promoted.0 in
      let graph =
        build_canonical_graph_and_verify_acyclic-Ranked (task_map candidate.tasks) mapping known in
      record {
        nonempty = begun.0;
        tasks = found.0;
        outputs = found.1;
        known = known;
        ranked = graph.2.0 (sym (ap cycles graph.1) ∙ promoted.1);
      }

  IsValid-accepted : IsValid limit candidate → validate limit max_errors candidate ≡ ok outcome
  unfolding validate
  IsValid-accepted valid =
      let graph =
        build_canonical_graph_and_verify_acyclic-Ranked (task_map candidate.tasks) mapping
          valid.known in
      begins candidate.tasks valid.nonempty
      ∙ ap (λ r. r >>= verify limit max_errors candidate)
          (references-Decides.passes (valid.tasks, valid.outputs))
      ∙ ap (λ r. r >>= λ built. ok (promote limit max_errors candidate built))
          (graph.1
            ∙ ap (λ errors. ok (canonical_graph (task_map candidate.tasks), errors))
                (graph.2.1 valid.ranked))

  -- The validator accepts a definition, with the canonical graph of its tasks, exactly if the
  -- definition is valid: it has a task, every task keeps to the limit of attempts, declares no
  -- dependency twice, none on itself and none on an unknown task, and takes its inputs from tasks on
  -- which it depends, every output comes from a task, and the dependencies have no cycle.
  pub validate-IsValid :
      (validate limit max_errors candidate ≡ ok outcome) ↔ IsValid limit candidate
  validate-IsValid = (accepted-IsValid, IsValid-accepted)
