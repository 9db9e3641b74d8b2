-- ===== src/Workflow/Order.antt =====
-- `get_execution_order` of src/ploston_core/workflow/types.py: Kahn's algorithm over `depends_on`.
-- The dicts `step_index`, `graph` and `in_degree` have a key for every step id and are read at
-- step ids only, so they are functions; a later step with the same id overwrites an earlier one.
pub mod Termination
pub mod Lowered
pub mod Relaxed
pub mod Invariant
pub mod Topology
pub mod Complete
pub mod Found
use ploston_core.Prelude.{
  ℕ, zero, suc, ◌+◌, String, Bool, true, false, not, Option, none, some, List, [], ◌∷◌, ◌++◌, map,
  ◌==◌, leb, nat_eq, length, select, mem, or_else, if◌then◌else◌,
}
use ploston_core.Prelude.Int.{ℤ, pos, pred_ℤ, is_zero}
use ploston_core.Workflow.{StepDefinition, WorkflowDefinition}

abbrev pub deps_of : StepDefinition → List String
deps_of s = or_else s.depends_on []

unfoldable pub update {ℓ} : {A : Type ℓ} → (String → A) → String → A → String → A
update f k v j = if k == j then v else f j

-- `graph[step.id] = step.depends_on or []`
unfoldable pub graph_from : (String → List String) → List StepDefinition → String → List String
unfolding update
graph_from g [] = g
graph_from g (s ∷ steps) = graph_from (update g s.id (deps_of s)) steps

unfoldable pub graph : List StepDefinition → String → List String
unfolding graph_from
graph steps = graph_from (λ _. []) steps

-- `{step.id: i for i, step in enumerate(self.steps)}`
unfoldable pub index_from : (String → ℕ) → ℕ → List StepDefinition → String → ℕ
unfolding update
index_from f i [] = f
index_from f i (s ∷ steps) = index_from (update f s.id i) (i + 1) steps

unfoldable pub step_index : List StepDefinition → String → ℕ
unfolding index_from
step_index steps = index_from (λ _. 0) 0 steps

-- The keys of `in_degree`, in insertion order.
unfoldable pub id_keys : List String → List StepDefinition → List String
id_keys seen [] = []
id_keys seen (s ∷ steps) =
    let rest = id_keys (s.id ∷ seen) steps in
    let same = id_keys seen steps in if mem s.id seen then same else s.id ∷ rest

unfoldable pub initial_degree : (String → List String) → String → ℤ
initial_degree g k = pos (length (g k))

-- `queue.sort(key=...)` is stable.
unfoldable pub place : (String → ℕ) → String → List String → List String
place index x [] = x ∷ []
place index x (y ∷ ys) = if leb (index x) (index y) then x ∷ y ∷ ys else y ∷ place index x ys

unfoldable pub sort_by : (String → ℕ) → List String → List String
unfolding place
sort_by index [] = []
sort_by index (x ∷ xs) = place index x (sort_by index xs)

-- The inner loop for the popped step `current`: the degrees and the ids that were appended.
unfoldable pub relax :
    (String → List String)
    → String
    → List StepDefinition
    → (String → ℤ)
    → List String
    → (String → ℤ) × List String
unfolding update
relax g current [] degree queue = (degree, queue)
relax g current (s ∷ steps) degree queue =
    let lower = pred_ℤ (degree s.id) in
    let hit = mem current (g s.id) in
    relax g current steps (if hit then update degree s.id lower else degree)
      (if hit then (if is_zero lower then queue ++ s.id ∷ [] else queue) else queue)

-- The `while queue` loop. `none` means that the fuel ran out.
unfoldable pub kahn :
    (String → ℕ)
    → (String → List String)
    → List StepDefinition
    → ℕ
    → (String → ℤ)
    → List String
    → List String
    → Option (List String)
unfolding relax sort_by
kahn index g steps zero degree queue result = none
kahn index g steps (suc fuel) degree queue result = elim (sort_by index queue) [
  | [] ↦ some result
  | current ∷ rest ↦
      let next = relax g current steps degree rest in
      kahn index g steps fuel next.0 next.1 (result ++ current ∷ [])
]

pub data Order : Type 0 where
  order : List String → Order
  circular : Order
  no_fuel : Order

unfoldable pub initial_queue : List StepDefinition → List String
unfolding id_keys initial_degree graph
initial_queue steps = select (λ k. is_zero (initial_degree (graph steps) k)) (id_keys [] steps)

unfoldable pub finish : List StepDefinition → Option (List String) → Order
finish steps none = no_fuel
finish steps (some result) =
    if nat_eq (length result) (length steps) then order result else circular

-- The loop, started with one more unit of fuel than there are steps.
unfoldable pub run_loop : List StepDefinition → Option (List String)
unfolding graph step_index initial_degree initial_queue kahn
run_loop steps =
    kahn (step_index steps) (graph steps) steps (suc (length steps)) (initial_degree (graph steps))
      (initial_queue steps) []

unfoldable pub order_of : List StepDefinition → Order
unfolding run_loop finish
order_of steps = finish steps (run_loop steps)

unfoldable pub get_execution_order : WorkflowDefinition → Order
unfolding order_of
get_execution_order w = order_of w.steps
