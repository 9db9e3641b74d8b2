-- ===== src/Workflow/Order/Found.antt =====
-- `get_step` and the dependency graph agree, for steps with distinct ids.
use ploston_core.Prelude.{
  ◌<◌, String, ◌≡◌, refl, ◌∙◌, inl, inr, false, some, List, [], ◌∷◌, arith, ◌==◌, eq_iff,
  Bool-cases,
}
use ploston_core.Prelude.Count.{occurs, Distinct, Distinct-tail, not_occurs_head}
use ploston_core.Workflow.{StepDefinition, find_step}
use ploston_core.Workflow.Order.{deps_of, update, graph_from, graph}
use ploston_core.Workflow.Order.Relaxed.{ids}

graph_from-absent :
    (g : String → List String) (steps : List StepDefinition) (k : String)
    → occurs k (ids steps) ≡ 0
    → graph_from g steps k ≡ g k
unfolding graph_from occurs
graph_from-absent g [] k h = refl
graph_from-absent g (s ∷ steps) k h =
    ground (arith, graph_from-absent (update g s.id (deps_of s)) steps k, update_ne)
  where
    update_ne : (s.id == k) ≡ false → update g s.id (deps_of s) k ≡ g k
    update_ne n = unfold update in rw n

graph_from-found :
    (g : String → List String) (steps : List StepDefinition) (k : String) (s : StepDefinition)
    → Distinct (ids steps)
    → find_step k steps ≡ some s
    → (s.id ≡ k) × (graph_from g steps k ≡ deps_of s)
unfolding graph_from find_step
graph_from-found g [] k s d e = cc
graph_from-found g (t ∷ steps) k s d e = elim (Bool-cases (t.id == k)) [
  | inl same ↦
      let t_is : t ≡ s = ground arith in
      let k_is : t.id ≡ k = (eq_iff t.id k).0 same in
      (
        ground arith,
        graph_from-absent (update g t.id (deps_of t)) steps k
              (rw (← k_is) (not_occurs_head t.id (ids steps) d))
            ∙ rw t_is (unfold update in rw (← t_is, same)),
      )
  | inr other ↦
      graph_from-found (update g t.id (deps_of t)) steps k s (Distinct-tail t.id (ids steps) d)
        (ground arith)
]

pub graph-found :
    (steps : List StepDefinition) (k : String) (s : StepDefinition)
    → Distinct (ids steps)
    → find_step k steps ≡ some s
    → (s.id ≡ k) × (graph steps k ≡ deps_of s)
unfolding graph
graph-found steps k s = graph_from-found (λ _. []) steps k s

pub find_step-found :
    (steps : List StepDefinition) (k : String)
    → 0 < occurs k (ids steps)
    → (s : StepDefinition) × (find_step k steps ≡ some s)
unfolding find_step occurs
find_step-found [] k h = absurd (omega arith)
find_step-found (t ∷ steps) k h = elim (Bool-cases (t.id == k)) [
  | inl same ↦ (t, rw same)
  | inr other ↦ let (s, e) = find_step-found steps k (ground arith) in (s, rw other e)
]
