-- ===== src/Domain/Graph/Acyclic.antt =====
-- src/nexusflow/domain/graph.py: Kahn's algorithm visits every node exactly if the graph has a rank.
use nexusflow.Base.{
  ℕ, zero, suc, ◌≤◌, ◌<◌, ◌≡◌, refl, ap, String, List, [], ◌∷◌, length, str_eq, if◌then◌else◌,
  arith, Bool-cases, inl, inr, eq_iff, ◌==◌,
}
use nexusflow.Domain.Graph.{Reduction}
use nexusflow.Domain.Graph.Bags.{occurrences, contains_iff, str_eq_refl, SubBag-length, SubBag-full}
use nexusflow.Domain.Graph.Kahn.{waiting, waiting_none, IsGraph, Ordered, Invariant, HasEnded}

-- Every dependency of a node has a lower rank than the node.
pub record Ranked (deps : String → List String) : Type 0 where
  pub rank : String → ℕ
  pub rises : (x d : String) → 1 ≤ occurrences d (deps x) → rank d < rank x

waiting_zero :
    (visited ds : List String)
    → ((d : String) → 1 ≤ occurrences d ds → 1 ≤ occurrences d visited)
    → waiting visited ds ≡ 0
waiting_zero visited [] all = refl
waiting_zero visited (d ∷ ds) all =
    let ih = waiting_zero visited ds (λ e h. all e (ground (arith, h))) in
    ground (arith, ih, all d, str_eq_refl d, contains_iff d visited)

module _ (nodes : List String) (deps dependents : String → List String)
    (graph : IsGraph nodes deps dependents) (s : Reduction)
    (ended : HasEnded nodes deps dependents graph s) where
  abbrev i : Invariant nodes deps dependents graph s
  i = ended.invariant

  settled :
      (x : String)
      → occurrences x s.visited
        ≡ (if waiting s.visited (deps x) == 0 then occurrences x nodes else 0)
  settled x = ground (arith, i.released x, i.degrees x, ap (occurrences x) ended.empty)

  module _ (ranked : Ranked deps) where
    reaches :
        (n : ℕ) (x : String)
        → ranked.rank x < n
        → 1 ≤ occurrences x nodes
        → 1 ≤ occurrences x s.visited
    reaches zero x low there = absurd (omega (arith, low))
    reaches (suc n) x low there =
        let none_left =
          waiting_zero s.visited (deps x)
            (λ d h. reaches n d (omega (arith, low, ranked.rises x d h)) (graph.known x d h)) in
        ground (arith, settled x, none_left, there)

    pub all_visited : length s.visited ≡ length nodes
    all_visited =
        let some_are = SubBag-length s.visited nodes (λ x. ground (arith, settled x)) in
        let all_are =
          SubBag-length nodes s.visited (λ x.
            ground (arith, graph.distinct x, reaches (suc (ranked.rank x)) x (omega arith))) in
        omega (arith, some_are, all_are)

  -- The number of nodes that were visited up to x.
  abbrev rank_in : List String → String → ℕ
  rank_in [] x = 0
  rank_in (c ∷ visited) x = if str_eq c x then suc (length visited) else rank_in visited x

  rank_in-length : (visited : List String) (x : String) → rank_in visited x ≤ length visited
  rank_in-length [] x = omega arith
  rank_in-length (c ∷ visited) x = let ih = rank_in-length visited x in ground (arith, ih)

  dependency_visited :
      (visited : List String) (x d : String)
      → Ordered nodes deps dependents graph visited
      → 1 ≤ occurrences x visited
      → 1 ≤ occurrences d (deps x)
      → 1 ≤ occurrences d visited
  dependency_visited [] x d o there h = absurd (omega (arith, there))
  dependency_visited (c ∷ visited) x d o there h = elim (Bool-cases (str_eq c x)) [
    | inl same ↦
        let e = ap deps ((eq_iff c x).0 same) in
        let before =
          waiting_none visited (deps c) d o.0
            (ground (arith, contains_iff d (deps c), ap (occurrences d) e, h)) in
        ground (arith, before, contains_iff d visited)
    | inr other ↦
        let before = dependency_visited visited x d o.1 (ground (arith, there, other)) h in
        ground (arith, before)
  ]

  rises_in :
      (visited : List String) (x d : String)
      → Ordered nodes deps dependents graph visited
      → ((y : String) → occurrences y visited ≤ 1)
      → 1 ≤ occurrences x visited
      → 1 ≤ occurrences d (deps x)
      → rank_in visited d < rank_in visited x
  rises_in [] x d o once there h = absurd (omega (arith, there))
  rises_in (c ∷ visited) x d o once there h = elim (Bool-cases (str_eq c x)) [
    | inl same ↦
        let e = ap deps ((eq_iff c x).0 same) in
        let before =
          waiting_none visited (deps c) d o.0
            (ground (arith, contains_iff d (deps c), ap (occurrences d) e, h)) in
        ground (arith, same, before, contains_iff d visited, once d, rank_in-length visited d)
    | inr other ↦
        let before = dependency_visited visited x d o.1 (ground (arith, there, other)) h in
        let ih =
          rises_in visited x d o.1 (λ y. ground (arith, once y)) (ground (arith, there, other)) h in
        ground (arith, other, before, ih, once d)
  ]

  pub visited-Ranked : length s.visited ≡ length nodes → Ranked deps
  visited-Ranked all = record {
    rank = rank_in s.visited;
    rises = λ x d h.
        let full =
          SubBag-full s.visited nodes (λ y. ground (arith, settled y)) (omega (arith, all)) in
        rises_in s.visited x d i.ordered (λ y. ground (arith, settled y, graph.distinct y))
          (omega (arith, full x, graph.from_node x d h)) h;
  }
