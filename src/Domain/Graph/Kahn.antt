-- ===== src/Domain/Graph/Kahn.antt =====
-- src/nexusflow/domain/graph.py: the reduction of a graph by Kahn's algorithm, on any graph.
use nexusflow.Base.{
  ℕ, zero, suc, ◌+◌, ◌-◌, ◌≤◌, ◌≡◌, refl, sym, String, true, false, List, [], ◌∷◌, ◌++◌, length,
  contains, str_eq, if◌then◌else◌, arith, Bool-cases, inl, inr, subst, ◌⊎◌, eq_iff, ap, ◌∙◌, ◌==◌,
}
use nexusflow.Domain.Graph.{Reduction, decrement, release, visit, round, reduce}
use nexusflow.Domain.Graph.Bags.{
  occurrences, str_eq_sym, occurrences-append, contains_iff, str_eq_refl, SubBag, SubBag-length,
}

-- Of the dependencies ds, how many are not visited.
abbrev pub waiting : List String → List String → ℕ
waiting visited [] = 0
waiting visited (d ∷ ds) = (if contains visited d then 0 else 1) + waiting visited ds

pub waiting_nothing : (ds : List String) → waiting [] ds ≡ length ds
waiting_nothing [] = refl
waiting_nothing (d ∷ ds) = let ih = waiting_nothing ds in omega (arith, ih)

-- One more visited node is one less to wait for, where it is a dependency.
waiting_visit :
    (c : String) (visited ds : List String)
    → contains visited c ≡ false
    → waiting (c ∷ visited) ds + occurrences c ds ≡ waiting visited ds
waiting_visit c visited [] new = omega arith
waiting_visit c visited (d ∷ ds) new =
    let ih = waiting_visit c visited ds new in
    elim (Bool-cases (str_eq c d)) [
      | inl same ↦
          ground
            (arith, ih, same, str_eq_sym c d, sym new ∙ ap (contains visited) ((eq_iff c d).0 same))
      | inr other ↦ ground (arith, ih, other, str_eq_sym c d)
    ]

pub waiting_none :
    (visited ds : List String) (d : String)
    → waiting visited ds ≡ 0
    → contains ds d ≡ true
    → contains visited d ≡ true
waiting_none visited [] d none_left there = absurd (ground (arith, there))
waiting_none visited (e ∷ ds) d none_left there = elim (Bool-cases (str_eq e d)) [
  | inl same ↦ ground (arith, none_left, ap (contains visited) ((eq_iff e d).0 same))
  | inr other ↦ waiting_none visited ds d (ground (arith, none_left)) (ground (arith, there, other))
]

-- What the release of downstream nodes, each of them once, does to one node x.
release_degree :
    (x : String) (ds queue : List String) (in_degree : String → ℕ)
    → (release ds queue in_degree).1 x ≡ in_degree x - occurrences x ds
release_degree x [] queue in_degree = omega arith
release_degree x (d ∷ ds) queue in_degree =
    let ih =
      release_degree x ds (if in_degree d == 1 then queue ++ d ∷ [] else queue)
        (decrement d in_degree) in
    ground (arith, ih)

release_queue :
    (x : String) (ds queue : List String) (in_degree : String → ℕ)
    → occurrences x ds ≤ 1
    → occurrences x (release ds queue in_degree).0
      ≡ occurrences x queue + (if in_degree x == 1 then occurrences x ds else 0)
release_queue x [] queue in_degree once = ground arith
release_queue x (d ∷ ds) queue in_degree once =
    let ih =
      release_queue x ds (if in_degree d == 1 then queue ++ d ∷ [] else queue)
        (decrement d in_degree) in
    elim (Bool-cases (str_eq d x)) [
      | inl same ↦ ground (
        arith,
        ih,
        once,
        same,
        ap in_degree ((eq_iff d x).0 same),
        occurrences-append x queue (d ∷ []),
      )
      | inr other ↦ ground (arith, ih, once, other, occurrences-append x queue (d ∷ []))
    ]

length-append : (xs ys : List String) → length (xs ++ ys) ≡ length xs + length ys
length-append [] ys = omega arith
length-append (x ∷ xs) ys = let ih = length-append xs ys in omega (arith, ih)

empty_list : (xs : List String) → length xs ≤ 0 → xs ≡ []
empty_list [] h = refl
empty_list (x ∷ xs) h = absurd (omega (arith, h))

queue-cases :
    (queue : List String)
    → (queue ≡ []) ⊎ ((c : String) × (rest : List String) × (queue ≡ c ∷ rest))
queue-cases [] = inl refl
queue-cases (c ∷ rest) = inr (c, rest, refl)

module _ (dependents : String → List String) (fuel : ℕ) (s : Reduction) where
  reduce_empty : s.queue ≡ [] → reduce dependents (suc fuel) s ≡ s
  unfolding reduce
  reduce_empty e = ap (λ q. round dependents (reduce dependents fuel) q s) e

  reduce_taken :
      (c : String) (rest : List String)
      → s.queue ≡ c ∷ rest
      → reduce dependents (suc fuel) s ≡ reduce dependents fuel (visit dependents c rest s)
  unfolding reduce
  reduce_taken c rest e = ap (λ q. round dependents (reduce dependents fuel) q s) e

-- A finite graph, by its nodes, the dependencies of each and the dependents of each.
pub record IsGraph (nodes : List String) (deps dependents : String → List String) : Type 0 where
  pub distinct : (x : String) → occurrences x nodes ≤ 1
  pub distinct_deps : (x d : String) → occurrences d (deps x) ≤ 1
  pub dual : (x d : String) → occurrences x (dependents d) ≡ occurrences d (deps x)
  pub from_node : (x d : String) → 1 ≤ occurrences d (deps x) → 1 ≤ occurrences x nodes
  pub known : (x d : String) → 1 ≤ occurrences d (deps x) → 1 ≤ occurrences d nodes

module _ (nodes : List String) (deps dependents : String → List String)
    (graph : IsGraph nodes deps dependents) where
  -- Each visited node was visited after its dependencies.
  abbrev pub Ordered : List String → Type 0
  Ordered [] = Unit
  Ordered (c ∷ visited) = (waiting visited (deps c) ≡ 0) × Ordered visited

  pub record Invariant (s : Reduction) : Type 0 where
    pub degrees : (x : String) → s.in_degree x ≡ waiting s.visited (deps x)
    pub released :
        (x : String)
        → occurrences x s.visited + occurrences x s.queue
          ≡ (if s.in_degree x == 0 then occurrences x nodes else 0)
    pub ordered : Ordered s.visited

  module _ (c : String) (rest : List String) (s : Reduction) (taken : s.queue ≡ c ∷ rest)
      (i : Invariant s) where
    queued :
        (x : String) → occurrences x s.queue ≡ (if str_eq c x then 1 else 0) + occurrences x rest
    queued x = ap (occurrences x) taken

    taken_degree : s.in_degree c ≡ 0
    taken_degree = ground (arith, i.released c, queued c, str_eq_refl c)

    taken_new : contains s.visited c ≡ false
    taken_new =
        ground
          (arith, i.released c, queued c, str_eq_refl c, contains_iff c s.visited, graph.distinct c)

    visit-Invariant : Invariant (visit dependents c rest s)
    visit-Invariant = record {
      degrees = λ x.
          let now = release_degree x (dependents c) rest s.in_degree in
          let waited = waiting_visit c s.visited (deps x) taken_new in
          omega (arith, now, waited, i.degrees x, graph.dual x c);
      released = λ x.
          let once : occurrences x (dependents c) ≤ 1 =
            omega (arith, graph.dual x c, graph.distinct_deps x c) in
          let now = release_degree x (dependents c) rest s.in_degree in
          let later = release_queue x (dependents c) rest s.in_degree once in
          let waited = waiting_visit c s.visited (deps x) taken_new in
          ground (
            arith,
            now,
            later,
            graph.dual x c,
            once,
            graph.from_node x c,
            graph.distinct x,
            i.released x,
            queued x,
            i.degrees x,
            waited,
          );
      ordered = (sym (i.degrees c) ∙ taken_degree, i.ordered);
    }

  Invariant-SubBag : (s : Reduction) → Invariant s → SubBag (s.visited ++ s.queue) nodes
  Invariant-SubBag s i x = ground (arith, occurrences-append x s.visited s.queue, i.released x)

  Invariant-length :
      (s : Reduction) → Invariant s → length s.visited + length s.queue ≤ length nodes
  Invariant-length s i =
      let fits = SubBag-length (s.visited ++ s.queue) nodes (Invariant-SubBag s i) in
      omega (arith, fits, length-append s.visited s.queue)

  -- The reduction has ended with an empty queue.
  pub record HasEnded (s : Reduction) : Type 0 where
    pub invariant : Invariant s
    pub empty : s.queue ≡ []

  -- With fuel for the nodes that are not yet visited, the queue is empty at the end.
  pub reduce-HasEnded :
      (fuel : ℕ) (s : Reduction)
      → Invariant s
      → length nodes ≤ fuel + length s.visited
      → HasEnded (reduce dependents fuel s)
  unfolding reduce
  reduce-HasEnded zero s i enough = record {
    invariant = i;
    empty = empty_list s.queue (omega (arith, enough, Invariant-length s i));
  }
  reduce-HasEnded (suc fuel) s i enough = elim (queue-cases s.queue) [
    | inl e ↦
        subst HasEnded (sym (reduce_empty dependents fuel s e))
          (record { invariant = i; empty = e })
    | inr (c, rest, e) ↦ subst HasEnded (sym (reduce_taken dependents fuel s c rest e)) (
        reduce-HasEnded fuel (visit dependents c rest s) (visit-Invariant c rest s e i)
          (omega (arith, enough)))
  ]
