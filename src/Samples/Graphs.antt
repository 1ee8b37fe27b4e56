-- ===== src/Samples/Graphs.antt =====
-- src/nexusflow/domain/graph.py and src/nexusflow/definition/validator.py on two tasks, of which the
-- second depends on the first.
use nexusflow.Base.{
  ◌≤◌, ◌≡◌, ◌↔◌, refl, subst, String, List, [], ◌∷◌, ok, arith, str_eq, eq_iff, Bool-cases, inl,
  inr,
}
use nexusflow.Domain.Identifiers.{task_definition_id}
use nexusflow.Domain.Spec.{TaskDefinition, CandidateWorkflowSpec, workflow_input, task_output}
use nexusflow.Domain.Graph.{
  reduced, reduce, dependencies_of, canonical_graph, build_canonical_graph_and_verify_acyclic,
  compute_deterministic_topological_order,
}
use nexusflow.Domain.Graph.Bags.{occurrences}
use nexusflow.Domain.Graph.Acyclic.{Ranked}
use nexusflow.Domain.Graph.Verified.{
  Tasks, IsMapping, reduced-ends, build_canonical_graph_and_verify_acyclic-Ranked,
}
use nexusflow.Definition.Validator.{validate, accepted, task_map}
use nexusflow.Definition.Validator.Valid.{IsSets, IsValid, validate-IsValid}

abbrev pub first_task : TaskDefinition
first_task = record {
  id = "fetch";
  activity_type = "http";
  dependencies = [];
  input_bindings = ("url", workflow_input) ∷ [];
  max_attempts = 3;
}

abbrev pub second_task : TaskDefinition
second_task = record {
  id = "parse";
  activity_type = "json";
  dependencies = "fetch" ∷ [];
  input_bindings = ("text", task_output "fetch") ∷ [];
  max_attempts = 1;
}

abbrev two_tasks : Tasks
two_tasks = ("parse", second_task) ∷ ("fetch", first_task) ∷ []

at_most_once : (x : String) → occurrences x ("parse" ∷ "fetch" ∷ []) ≤ 1
at_most_once x = elim (Bool-cases (str_eq "parse" x)) [
  | inl same ↦
      subst (λ y. occurrences y ("parse" ∷ "fetch" ∷ []) ≤ 1) ((eq_iff "parse" x).0 same)
        (omega arith)
  | inr other ↦ ground (arith, other)
]

two_tasks-IsMapping : IsMapping two_tasks
two_tasks-IsMapping = record {
  distinct = at_most_once;
  sets = (λ d. ground arith, (λ d. omega arith, tt));
}

reduced-ends_example : (reduced two_tasks).queue ≡ []
reduced-ends_example = reduced-ends two_tasks two_tasks-IsMapping refl

build_canonical_graph_and_verify_acyclic-Ranked_example :
    (errors : List (List String)) × (build_canonical_graph_and_verify_acyclic two_tasks
      ≡ ok (canonical_graph two_tasks, errors))
    × ((errors ≡ []) ↔ Ranked (dependencies_of two_tasks))
build_canonical_graph_and_verify_acyclic-Ranked_example =
    build_canonical_graph_and_verify_acyclic-Ranked two_tasks two_tasks-IsMapping refl

order_lem :
    compute_deterministic_topological_order (canonical_graph two_tasks) ≡ "fetch" ∷ "parse" ∷ []
unfolding compute_deterministic_topological_order reduce
order_lem = refl

abbrev circular : Tasks
circular =
    ("a", record second_task { id = "a"; dependencies = "b" ∷ [] })
    ∷ ("b", record second_task { id = "b"; dependencies = "a" ∷ [] })
    ∷ []

circular_lem :
    build_canonical_graph_and_verify_acyclic circular
    ≡ ok (canonical_graph circular, ("a" ∷ "b" ∷ []) ∷ [])
unfolding build_canonical_graph_and_verify_acyclic reduced reduce
circular_lem = refl

abbrev pipeline : CandidateWorkflowSpec
pipeline = record {
  workflow_name = "pipeline";
  tasks = second_task ∷ first_task ∷ [];
  raw_dependencies = ("parse", "fetch" ∷ []) ∷ ("fetch", []) ∷ [];
  output_bindings = ("result", record { source_task_id = "parse" }) ∷ [];
}

pipeline_IsSets : IsSets pipeline.tasks
pipeline_IsSets = (λ d. ground arith, (λ d. omega arith, tt))

validate-IsValid_example :
    (validate 100 50 pipeline
      ≡ ok (accepted 100 50 pipeline (canonical_graph (task_map pipeline.tasks))))
    ↔ IsValid 100 pipeline
validate-IsValid_example = validate-IsValid 100 50 pipeline pipeline_IsSets

accepted_lem :
    validate 100 50 pipeline
    ≡ ok (accepted 100 50 pipeline (canonical_graph (task_map pipeline.tasks)))
unfolding validate build_canonical_graph_and_verify_acyclic reduced reduce task_definition_id
accepted_lem = refl
