-- ===== src/Samples/Stored.antt =====
-- src/nexusflow/definition/codec.py on two tasks, of which the second depends on the first.
use nexusflow.Base.{◌≡◌, refl, [], ◌∷◌, ok, arith}
use nexusflow.Domain.Spec.{ValidatedWorkflowSpec}
use nexusflow.Domain.Graph.{
  canonical_graph, build_canonical_graph_and_verify_acyclic, reduced, reduce,
}
use nexusflow.Definition.Codec.{serialize_validated_spec}
use nexusflow.Definition.Codec.Read.{deserialize_validated_spec}
use nexusflow.Definition.Codec.RoundTrip.{
  Storable, deserialize_validated_spec-serialize_validated_spec,
}
use nexusflow.Samples.Graphs.{first_task, second_task}

abbrev stored_spec : ValidatedWorkflowSpec
stored_spec = record {
  workflow_name = "pipeline";
  tasks = ("fetch", first_task) ∷ ("parse", second_task) ∷ [];
  output_bindings = ("result", record { source_task_id = "parse" }) ∷ [];
}

stored_spec-Storable : Storable stored_spec
unfolding build_canonical_graph_and_verify_acyclic reduced reduce
stored_spec-Storable = record {
  named = refl;
  nonempty = omega arith;
  in_order = refl;
  tasks = (
    record {
      keyed = refl;
      named = refl;
      typed = refl;
      declared = tt;
      in_order = refl;
      bindings_in_order = refl;
      bound = (tt, tt);
      attempts = omega arith;
    },
    (
      record {
        keyed = refl;
        named = refl;
        typed = refl;
        declared = ((refl, refl, refl, refl), tt);
        in_order = refl;
        bindings_in_order = refl;
        bound = ((refl, refl, refl), tt);
        attempts = omega arith;
      },
      tt,
    ),
  );
  outputs_in_order = refl;
  outputs = ((refl, refl), tt);
  graph = canonical_graph stored_spec.tasks;
  acyclic = refl;
}

deserialize_validated_spec-serialize_validated_spec_example :
    deserialize_validated_spec (serialize_validated_spec stored_spec) ≡ ok stored_spec
deserialize_validated_spec-serialize_validated_spec_example =
    deserialize_validated_spec-serialize_validated_spec stored_spec stored_spec-Storable
