-- ===== src/Tests/Orders.antt =====
-- Execution orders.
use ploston_core.Prelude.{
  ℕ, ◌≤◌, ◌<◌, String, ◌≡◌, refl, sym, ◌≢◌, true, List, [], ◌∷◌, arith, ◌==◌, mem, select, unique,
  if◌then◌else◌, ◌⊎◌, inl, inr, eq_iff, length,
}
use ploston_core.Prelude.Count.{occurs, Distinct, unique-Distinct}
use ploston_core.Workflow.Order.{order, circular, no_fuel, graph, get_execution_order}
use ploston_core.Workflow.Order.Termination.{get_execution_order_ends}
use ploston_core.Workflow.Order.Relaxed.{ids}
use ploston_core.Workflow.Order.Topology.{IsPlaced, get_execution_order_topological}
use ploston_core.Workflow.Order.Complete.{
  IsSchedulable, get_execution_order_complete, get_execution_order_repeated,
}
use ploston_core.Tests.Samples.{chain, repeated}

abbrev sorted : List String
sorted = "a" ∷ "b" ∷ "c" ∷ []

pub order-chain : get_execution_order chain ≡ order sorted
unfolding get_execution_order mem select ploston_core.Prelude.Int.is_zero
    ploston_core.Prelude.Int.pred_ℤ
order-chain = refl

pub chain-Distinct : Distinct (ids chain.steps)
unfolding unique mem
chain-Distinct = unique-Distinct (ids chain.steps) refl

get_execution_order_ends_example : get_execution_order repeated ≢ no_fuel
get_execution_order_ends_example = get_execution_order_ends repeated

get_execution_order_topological_example :
    ((k : String) → occurs k sorted ≡ occurs k (ids chain.steps))
    × IsPlaced (graph chain.steps) [] sorted
get_execution_order_topological_example =
    get_execution_order_topological chain sorted chain-Distinct order-chain

graph-repeated : graph repeated.steps "b" ≡ "a" ∷ "a" ∷ []
unfolding graph
graph-repeated = refl

not_twice : ¬ Distinct ("a" ∷ "a" ∷ [])
unfolding occurs
not_twice h = absurd (omega (arith, h "a"))

repeated-Distinct : Distinct (ids repeated.steps)
unfolding unique mem
repeated-Distinct = unique-Distinct (ids repeated.steps) refl

get_execution_order_repeated_example : get_execution_order repeated ≡ circular
get_execution_order_repeated_example =
    get_execution_order_repeated repeated "b" repeated-Distinct (unfold occurs in omega arith)
      (rw graph-repeated not_twice)

abbrev rank : String → ℕ
rank k = if k == "c" then 2 else if k == "b" then 1 else 0

chain_member : (k : String) → 0 < occurs k (ids chain.steps) → (k ≡ "c") ⊎ ((k ≡ "b") ⊎ (k ≡ "a"))
unfolding occurs
chain_member k h = ground (arith, eq_iff "c" k, eq_iff "b" k, eq_iff "a" k)

none_below : (d : String) → occurs d [] ≡ 0
unfolding occurs
none_below d = refl

only : (x d : String) → 0 < occurs d (x ∷ []) → x ≡ d
unfolding occurs
only x d h = ground (arith, eq_iff x d)

chain_graph :
    (graph chain.steps "c" ≡ "b" ∷ [])
    × (graph chain.steps "b" ≡ "a" ∷ [])
    × (graph chain.steps "a" ≡ [])
unfolding graph
chain_graph = (refl, refl, refl)

-- What a step of the chain depends on: nothing, or the step before it.
chain_deps :
    (k : String)
    → 0 < occurs k (ids chain.steps)
    → (graph chain.steps k ≡ [])
      ⊎ ((d : String) × (graph chain.steps k ≡ d ∷ [])
          × (0 < occurs d (ids chain.steps))
          × (rank d < rank k))
unfolding occurs
chain_deps k h = elim (chain_member k h) [
  | inl c ↦ inr (rw c ("b", chain_graph.0, omega arith, omega arith))
  | inr (inl b) ↦ inr (rw b ("a", chain_graph.1, omega arith, omega arith))
  | inr (inr a) ↦ inl (rw a chain_graph.2)
]

one-Distinct : (x : String) → Distinct (x ∷ [])
unfolding unique mem
one-Distinct x = unique-Distinct (x ∷ []) refl

chain-IsSchedulable : IsSchedulable rank chain.steps
chain-IsSchedulable = record {
  once = λ k h. elim (chain_deps k h) [
    | inl e ↦ rw e (λ d. omega (arith, none_below d))
    | inr (d, e, m, lt) ↦ rw e (one-Distinct d)
  ];
  known = λ k d h m. elim (chain_deps k h) [
    | inl e ↦ absurd (omega (arith, none_below d, rw e at m))
    | inr (j, e, there, lt) ↦ rw (sym (only j d (rw e at m))) there
  ];
  below = λ k d h m. elim (chain_deps k h) [
    | inl e ↦ absurd (omega (arith, none_below d, rw e at m))
    | inr (j, e, there, lt) ↦ rw (sym (only j d (rw e at m))) lt
  ];
}

get_execution_order_complete_example : (r : List String) × (get_execution_order chain ≡ order r)
get_execution_order_complete_example =
    get_execution_order_complete rank chain chain-Distinct chain-IsSchedulable
