-- ===== src/Workflow/Order/Complete.antt =====
-- When `get_execution_order` succeeds, for steps with distinct ids.
use mathlib.Core.Logic.{◌≢◌}
use ploston_core.Prelude.{
  ℕ, zero, suc, ◌<◌, String, ◌≡◌, refl, ap, ◌∙◌, true, Option, none, some, List, arith, length,
  hits,
}
use ploston_core.Prelude.Int.{pos, is_zero}
use ploston_core.Prelude.Count.{occurs, Distinct, hits-le, full_of_members}
use ploston_core.Workflow.{StepDefinition, WorkflowDefinition}
use ploston_core.Workflow.Order.{
  Order, order, circular, no_fuel, graph, finish, run_loop, order_of, get_execution_order,
}
use ploston_core.Workflow.Order.Termination.{run_loop-ne-none, get_execution_order_ends}
use ploston_core.Workflow.Order.Lowered.{lower, lower_all}
use ploston_core.Workflow.Order.Relaxed.{ids}
use ploston_core.Workflow.Order.Invariant.{Distinct-done}
use ploston_core.Workflow.Order.Topology.{
  Ended, run_loop-Ended, length-ids, hits_of_members, order-deps,
}

-- The declared dependencies of each step are distinct step ids, and `rank` puts each below its
-- step, so that there is no cycle.
pub record IsSchedulable (rank : String → ℕ) (steps : List StepDefinition) : Type 0 where
  pub once : (k : String) → 0 < occurs k (ids steps) → Distinct (graph steps k)
  pub known :
      (k d : String)
      → 0 < occurs k (ids steps)
      → 0 < occurs d (graph steps k)
      → 0 < occurs d (ids steps)
  pub below :
      (k d : String) → 0 < occurs k (ids steps) → 0 < occurs d (graph steps k) → rank d < rank k

module _ {rank : String → ℕ} {steps : List StepDefinition} (ok : IsSchedulable rank steps)
    (r : List String) (ended : Ended steps (graph steps) r) where
  -- With all of its dependencies done, an id has been queued.
  done_of_deps :
      (k : String)
      → 0 < occurs k (ids steps)
      → ((d : String) → 0 < occurs d (graph steps k) → 0 < occurs d r)
      → 0 < occurs k r
  done_of_deps k h deps =
      let full : hits r (graph steps k) ≡ length (graph steps k) = omega (
        arith,
        full_of_members r (graph steps k) (ok.once k h) deps,
        hits-le r (graph steps k) (Distinct-done ended.inv),
      ) in
      let free : is_zero (ended.degree k) ≡ true =
        ap is_zero (ended.inv.tracks k h)
        ∙ ap (λ n. is_zero (lower n (pos (length (graph steps k))))) full
        ∙ lower_all (length (graph steps k)) in
      omega (arith, ended.inv.queued k h free, ended.empty k)

  done_below : (n : ℕ) (k : String) → rank k < n → 0 < occurs k (ids steps) → 0 < occurs k r
  done_below zero k b h = elim b [ ]
  done_below (suc n) k b h =
      done_of_deps k h (λ d m. done_below n d (omega (arith, ok.below k d h m)) (ok.known k d h m))

  pub length-ended : Distinct (ids steps) → length r ≡ length steps
  length-ended distinct = omega (
    arith,
    full_of_members r (ids steps) distinct (λ k h. done_below (suc (rank k)) k (omega arith) h),
    hits-le r (ids steps) (Distinct-done ended.inv),
    hits_of_members r (ids steps) (λ k h. (ended.inv.free k (omega (arith, ended.empty k))).0),
    length-ids steps,
  )

Loop-cases : (o : Option (List String)) → o ≢ none → (r : List String) × (o ≡ some r)
Loop-cases none h = absurd (h refl)
Loop-cases (some r) h = (r, refl)

finish_full :
    (steps : List StepDefinition) (r : List String)
    → length r ≡ length steps
    → finish steps (some r) ≡ order r
unfolding finish
finish_full steps r h = ground arith

-- Steps with distinct ids, whose dependency lists name distinct step ids and have no cycle, always
-- have an execution order.
pub get_execution_order_complete :
    (rank : String → ℕ) (w : WorkflowDefinition)
    → Distinct (ids w.steps)
    → IsSchedulable rank w.steps
    → (r : List String) × (get_execution_order w ≡ order r)
unfolding get_execution_order order_of
get_execution_order_complete rank w distinct ok =
    let (r, e) = Loop-cases (run_loop w.steps) (run_loop-ne-none w.steps) in
    let full = length-ended ok r (run_loop-Ended w.steps distinct e) distinct in
    (r, ap (finish w.steps) e ∙ finish_full w.steps r full)

Order-cases : (o : Order) → o ≢ no_fuel → ((r : List String) → o ≢ order r) → o ≡ circular
Order-cases (order r) h n = absurd (n r refl)
Order-cases circular h n = refl
Order-cases no_fuel h n = absurd (h refl)

-- A step that lists one dependency twice makes `get_execution_order` report a circular dependency,
-- whatever the other steps are, where the step ids are distinct.
pub get_execution_order_repeated :
    (w : WorkflowDefinition) (k : String)
    → Distinct (ids w.steps)
    → 0 < occurs k (ids w.steps)
    → ¬ Distinct (graph w.steps k)
    → get_execution_order w ≡ circular
unfolding get_execution_order
get_execution_order_repeated w k distinct h twice =
    Order-cases (order_of w.steps) (get_execution_order_ends w)
      (λ r e. twice (order-deps w.steps r distinct e k h).0)

-- A step that depends on an id which is no step's makes `get_execution_order` report a circular
-- dependency, where the step ids are distinct.
pub get_execution_order_unknown :
    (w : WorkflowDefinition) (k d : String)
    → Distinct (ids w.steps)
    → 0 < occurs k (ids w.steps)
    → 0 < occurs d (graph w.steps k)
    → occurs d (ids w.steps) ≡ 0
    → get_execution_order w ≡ circular
unfolding get_execution_order
get_execution_order_unknown w k d distinct h m absent =
    Order-cases (order_of w.steps) (get_execution_order_ends w)
      (λ r e. absurd (omega (arith, (order-deps w.steps r distinct e k h).1 d m)))
