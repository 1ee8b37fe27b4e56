-- ===== src/Domain/Graph.antt =====
-- src/nexusflow/domain/graph.py: the dependency graph of a definition, and Kahn's algorithm on it. A
-- mapping of tasks is a list of entries with distinct keys, a set is a list of distinct members, and
-- the iteration order of a set is that of the entries. The message of a cycle error is the list of the
-- tasks that it names.
pub mod Bags
pub mod Kahn
pub mod Acyclic
pub mod Verified
use nexusflow.Base.{
  ℕ, zero, suc, ◌-◌, String, Bool, not, List, [], ◌∷◌, ◌++◌, map, Result, ok, err, value_error,
  length, every, contains, str_eq, ◌==◌, if◌then◌else◌,
}
use Prim.Native.String.{compare}
use text.Mathlib.Text.{is_le}
use mathlib.Core.List.{reverse}
use nexusflow.Domain.Spec.{TaskDefinition}

-- [x for x in xs if p(x)]
abbrev pub filter {ℓ} : {A : Type ℓ} → (A → Bool) → List A → List A
filter p [] = []
filter p (x ∷ xs) = let rest = filter p xs in if p x then x ∷ rest else rest

abbrev insert_sorted : String → List String → List String
insert_sorted s [] = s ∷ []
insert_sorted s (t ∷ ts) =
    let rest = insert_sorted s ts in if is_le (compare s t) then s ∷ t ∷ ts else t ∷ rest

-- sorted(xs), on texts
abbrev pub sorted : List String → List String
sorted [] = []
sorted (s ∷ ss) = insert_sorted s (sorted ss)

pub record CanonicalGraph : Type 0 where
  pub nodes : List String
  pub dependencies : List (String × List String)
  pub dependents : List (String × List String)

module _ (tasks : List (String × TaskDefinition)) where
  abbrev pub nodes_of : List String
  nodes_of = map (λ e. e.0) tasks

  -- dependents[id], as the loops of step 1 leave it
  abbrev pub dependents_of : String → List String
  dependents_of id = map (λ e. e.0) (filter (λ e. contains e.1.dependencies id) tasks)

-- dependencies[id], as the loops of step 1 leave it
abbrev pub dependencies_of : List (String × TaskDefinition) → String → List String
dependencies_of [] id = []
dependencies_of ((key, task) ∷ tasks) id =
    if str_eq key id then task.dependencies else dependencies_of tasks id

-- The variables of the loops; `in_degree` is a dict that has every node as a key. `visited` is the
-- nodes that were taken from the queue, the last one first: visited_count is its length.
pub record Reduction : Type 0 where
  pub queue : List String
  pub in_degree : String → ℕ
  pub visited : List String

-- in_degree[id] -= 1, of a positive number
abbrev pub decrement : String → (String → ℕ) → String → ℕ
decrement id in_degree x = if str_eq id x then in_degree x - 1 else in_degree x

-- for downstream in dependents[current]: …
abbrev pub release : List String → List String → (String → ℕ) → List String × (String → ℕ)
release [] queue in_degree = (queue, in_degree)
release (downstream ∷ rest) queue in_degree =
    release rest (if in_degree downstream == 1 then queue ++ downstream ∷ [] else queue)
      (decrement downstream in_degree)

module _ (dependents : String → List String) where
  abbrev pub visit : String → List String → Reduction → Reduction
  visit current rest s = record {
    queue = (release (dependents current) rest s.in_degree).0;
    in_degree = (release (dependents current) rest s.in_degree).1;
    visited = current ∷ s.visited;
  }

  -- One round of the loop, and then the rest of it.
  abbrev pub round : (Reduction → Reduction) → List String → Reduction → Reduction
  round again [] s = s
  round again (current ∷ rest) s = again (visit current rest s)

  -- while queue: …
  unfoldable pub reduce : ℕ → Reduction → Reduction
  reduce zero s = s
  reduce (suc fuel) s = round (reduce fuel) s.queue s

abbrev pub start_reduction : List (String × TaskDefinition) → Reduction
start_reduction tasks = record {
  queue = filter (λ t. length (dependencies_of tasks t) == 0) (nodes_of tasks);
  in_degree = λ t. length (dependencies_of tasks t);
  visited = [];
}

-- Each round visits another node, so the number of nodes is fuel enough.
unfoldable pub reduced : List (String × TaskDefinition) → Reduction
unfolding reduce
reduced tasks = reduce (dependents_of tasks) (length tasks) (start_reduction tasks)

abbrev pub canonical_graph : List (String × TaskDefinition) → CanonicalGraph
canonical_graph tasks = record {
  nodes = nodes_of tasks;
  dependencies = map (λ e. (e.0, e.1.dependencies)) tasks;
  dependents = map (λ e. (e.0, dependents_of tasks e.0)) tasks;
}

-- [t.value for t in nodes if in_degree[t] > 0]
abbrev pub cycle_nodes : List (String × TaskDefinition) → Reduction → List String
cycle_nodes tasks s = filter (λ t. not (s.in_degree t == 0)) (nodes_of tasks)

-- The second part of the result is `cycle_errors`: no error, or one that names the cycle nodes.
unfoldable pub build_canonical_graph_and_verify_acyclic :
    List (String × TaskDefinition) → Result (CanonicalGraph × List (List String))
unfolding reduced
build_canonical_graph_and_verify_acyclic tasks =
    if every (λ e. every (contains (nodes_of tasks)) e.1.dependencies) tasks
    then ok (
      canonical_graph tasks,
      (if length (reduced tasks).visited == length tasks
          then []
          else sorted (cycle_nodes tasks (reduced tasks)) ∷ []),
    )
    else err value_error

-- graph.get_downstream_dependents(id) and graph.get_upstream_dependencies(id)
abbrev pub adjacent : List (String × List String) → String → List String
adjacent [] id = []
adjacent ((key, ids) ∷ rest) id = if str_eq key id then ids else adjacent rest id

unfoldable pub compute_deterministic_topological_order : CanonicalGraph → List String
unfolding reduce
compute_deterministic_topological_order graph =
    reverse
      (reduce (λ id. sorted (adjacent graph.dependents id)) (length graph.nodes)
        (record {
          queue = sorted (filter (λ t. length (adjacent graph.dependencies t) == 0) graph.nodes);
          in_degree = λ t. length (adjacent graph.dependencies t);
          visited = [];
        })).visited
