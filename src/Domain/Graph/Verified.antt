-- ===== src/Domain/Graph/Verified.antt =====
-- src/nexusflow/domain/graph.py: build_canonical_graph_and_verify_acyclic finds the cycles.
use nexusflow.Base.{
  ◌≤◌, ◌≡◌, ◌↔◌, refl, sym, ap, String, Bool, true, false, List, [], ◌∷◌, length, contains, str_eq,
  if◌then◌else◌, arith, Bool-cases, inl, inr, eq_iff, ◌==◌, every, ok, All,
}
use nexusflow.Domain.Spec.{TaskDefinition}
use nexusflow.Domain.Graph.{
  filter, nodes_of, dependents_of, dependencies_of, start_reduction, reduced, canonical_graph,
  build_canonical_graph_and_verify_acyclic, sorted, cycle_nodes,
}
use nexusflow.Domain.Graph.Bags.{occurrences, contains_iff}
use nexusflow.Domain.Graph.Kahn.{waiting_nothing, IsGraph, HasEnded, reduce-HasEnded}
use nexusflow.Domain.Graph.Acyclic.{Ranked, all_visited, visited-Ranked}

abbrev pub Tasks : Type 0
Tasks = List (String × TaskDefinition)

-- A mapping has each key once, and a frozenset each member.
pub record IsMapping (tasks : Tasks) : Type 0 where
  pub distinct : (x : String) → occurrences x (nodes_of tasks) ≤ 1
  pub sets : All (λ e. (d : String) → occurrences d e.1.dependencies ≤ 1) tasks

sets_at :
    (tasks : Tasks) (x d : String)
    → All (λ e. (d : String) → occurrences d e.1.dependencies ≤ 1) tasks
    → occurrences d (dependencies_of tasks x) ≤ 1
sets_at [] x d sets = omega arith
sets_at ((key, task) ∷ tasks) x d sets =
    let ih = sets_at tasks x d sets.1 in
    elim (Bool-cases (str_eq key x)) [ inl same ↦ rw same (sets.0 d) | inr other ↦ rw other ih ]

absent :
    (tasks : Tasks) (x d : String)
    → occurrences x (nodes_of tasks) ≡ 0
    → (occurrences x (dependents_of tasks d) ≡ 0) × (dependencies_of tasks x ≡ [])
absent [] x d none_there = (refl, refl)
absent ((key, task) ∷ tasks) x d none_there =
    let ih = absent tasks x d (ground (arith, none_there)) in
    let other : str_eq key x ≡ false = ground (arith, none_there) in
    (
      elim (Bool-cases (contains task.dependencies d)) [
        | inl depends ↦ rw depends (ground (arith, other, ih.0))
        | inr apart ↦ rw apart ih.0
      ],
      rw other ih.1,
    )

dual :
    (tasks : Tasks) (x d : String)
    → ((y : String) → occurrences y (nodes_of tasks) ≤ 1)
    → All (λ e. (d : String) → occurrences d e.1.dependencies ≤ 1) tasks
    → occurrences x (dependents_of tasks d) ≡ occurrences d (dependencies_of tasks x)
dual [] x d distinct sets = refl
dual ((key, task) ∷ tasks) x d distinct sets =
    let ih = dual tasks x d (λ y. ground (arith, distinct y)) sets.1 in
    elim (Bool-cases (str_eq key x)) [
      | inl same ↦
          let gone = absent tasks x d (ground (arith, distinct x, same)) in
          elim (Bool-cases (contains task.dependencies d)) [
            | inl depends ↦ rw depends (
                rw same (
                  ground
                    (arith, same, gone.0, sets.0 d, depends, contains_iff d task.dependencies)))
            | inr apart ↦
                rw apart (rw same (ground (arith, gone.0, apart, contains_iff d task.dependencies)))
          ]
      | inr other ↦ elim (Bool-cases (contains task.dependencies d)) [
        | inl depends ↦ rw depends (rw other (ground (arith, other, ih)))
        | inr apart ↦ rw apart (rw other ih)
      ]
    ]

occurrences-filter :
    (p : String → Bool) (x : String) (xs : List String)
    → occurrences x (filter p xs) ≡ (if p x then occurrences x xs else 0)
occurrences-filter p x [] = ground arith
occurrences-filter p x (y ∷ ys) =
    let ih = occurrences-filter p x ys in
    elim (Bool-cases (str_eq y x)) [
      | inl same ↦ ground (arith, ih, same, ap p ((eq_iff y x).0 same))
      | inr other ↦ ground (arith, ih, other)
    ]

-- The dependencies of every task are tasks.
abbrev pub all_known : Tasks → Bool
all_known tasks = every (λ e. every (contains (nodes_of tasks)) e.1.dependencies) tasks

every_at :
    (ks ds : List String) (d : String)
    → every (contains ks) ds ≡ true
    → 1 ≤ occurrences d ds
    → 1 ≤ occurrences d ks
every_at ks [] d all there = absurd (omega (arith, there))
every_at ks (e ∷ ds) d all there = elim (Bool-cases (str_eq e d)) [
  | inl same ↦ ground (arith, all, ap (contains ks) ((eq_iff e d).0 same), contains_iff d ks)
  | inr other ↦ every_at ks ds d (ground (arith, all)) (ground (arith, there, other))
]

known_at :
    (ks : List String) (tasks : Tasks) (x d : String)
    → every (λ e. every (contains ks) e.1.dependencies) tasks ≡ true
    → 1 ≤ occurrences d (dependencies_of tasks x)
    → 1 ≤ occurrences d ks
known_at ks [] x d all there = absurd (omega (arith, there))
known_at ks ((key, task) ∷ tasks) x d all there = elim (Bool-cases (str_eq key x)) [
  | inl same ↦ every_at ks task.dependencies d (ground (arith, all)) (ground (arith, same, there))
  | inr other ↦ known_at ks tasks x d (ground (arith, all)) (ground (arith, other, there))
]

length-map : (tasks : Tasks) → length (nodes_of tasks) ≡ length tasks
length-map [] = refl
length-map (e ∷ tasks) = let ih = length-map tasks in omega (arith, ih)

module _ (tasks : Tasks) (mapping : IsMapping tasks) (known : all_known tasks ≡ true) where
  task-IsGraph : IsGraph (nodes_of tasks) (dependencies_of tasks) (dependents_of tasks)
  task-IsGraph = record {
    distinct = mapping.distinct;
    distinct_deps = λ x d. sets_at tasks x d mapping.sets;
    dual = λ x d. dual tasks x d mapping.distinct mapping.sets;
    from_node = λ x d h. elim (Bool-cases (occurrences x (nodes_of tasks) == 0)) [
      | inl missing ↦
          let nothing = (absent tasks x d (ground (arith, missing))).1 in
          absurd (omega (arith, h, ap (occurrences d) nothing))
      | inr there ↦ ground (arith, there)
    ];
    known = λ x d h. known_at (nodes_of tasks) tasks x d known h;
  }

  reduced-HasEnded :
      HasEnded
        (nodes_of tasks)
        (dependencies_of tasks)
        (dependents_of tasks)
        task-IsGraph
        (reduced tasks)
  unfolding reduced
  reduced-HasEnded =
      reduce-HasEnded (nodes_of tasks) (dependencies_of tasks) (dependents_of tasks) task-IsGraph
        (length tasks) (start_reduction tasks)
        (record {
          degrees = λ x. sym (waiting_nothing (dependencies_of tasks x));
          released = λ x. ground (
            arith,
            occurrences-filter (λ t. length (dependencies_of tasks t) == 0) x (nodes_of tasks),
          );
          ordered = tt;
        })
        (omega (arith, length-map tasks))

  -- Of a mapping whose dependencies are sets of its keys, the fuel of the reduction is enough: the
  -- loop ends because the queue is empty.
  pub reduced-ends : (reduced tasks).queue ≡ []
  reduced-ends = reduced-HasEnded.empty

  reduced-Ranked :
      length (reduced tasks).visited ≡ length (nodes_of tasks) → Ranked (dependencies_of tasks)
  reduced-Ranked = visited-Ranked _ _ _ task-IsGraph (reduced tasks) reduced-HasEnded

  none_left :
      Ranked (dependencies_of tasks) → length (reduced tasks).visited ≡ length (nodes_of tasks)
  none_left = all_visited _ _ _ task-IsGraph (reduced tasks) reduced-HasEnded

  -- Of a mapping whose dependencies are sets of its keys, the function returns the canonical graph and
  -- a list of errors, which is empty exactly if the tasks have a rank that every dependency raises,
  -- that is, if no task depends on itself through others.
  pub build_canonical_graph_and_verify_acyclic-Ranked :
      (errors : List (List String)) × (build_canonical_graph_and_verify_acyclic tasks
        ≡ ok (canonical_graph tasks, errors))
      × ((errors ≡ []) ↔ Ranked (dependencies_of tasks))
  unfolding build_canonical_graph_and_verify_acyclic
  build_canonical_graph_and_verify_acyclic-Ranked =
      elim (Bool-cases (length (reduced tasks).visited == length tasks)) [
        | inl all ↦ (
          [],
          rw known (rw all refl),
          (λ e. reduced-Ranked (ground (arith, all, length-map tasks)), λ r. refl),
        )
        | inr some_left ↦ (
          sorted (cycle_nodes tasks (reduced tasks)) ∷ [],
          rw known (rw some_left refl),
          (
            λ e. absurd (omega (arith, ap length e)),
            λ r. absurd (ground (arith, some_left, length-map tasks, none_left r)),
          ),
        )
      ]
