-- ===== src/Engine/Planned.antt =====
-- The results of a run without failures follow the plan, and how its end is reached.
use mathlib.Core.Path.{subst}
use mathlib.Core.List.{append_assoc}
use ploston_core.Prelude.{
  suc, ◌+◌, String, ◌≡◌, refl, sym, ap, ◌∙◌, true, false, ◌||◌, Option, none, some, List, [], ◌∷◌,
  ◌++◌, map, arith, eq_iff, eq_refl, length, if◌then◌else◌,
}
use ploston_core.Prelude.Assoc.{Assoc, insert, keys, values}
use ploston_core.Prelude.Count.{occurs, Distinct, occurs-append}
use ploston_core.Errors.{Result, ok, err}
use ploston_core.Types.{StepStatus}
use ploston_core.Value.{Value}
use ploston_core.Workflow.{StepDefinition, WorkflowDefinition, get_step}
use ploston_core.Workflow.Order.{Order, order, circular, no_fuel, get_execution_order}
use ploston_core.Workflow.Order.Relaxed.{ids}
use ploston_core.Workflow.Order.Topology.{get_execution_order_topological}
use ploston_core.Workflow.Order.Found.{graph-found, find_step-found}
use ploston_core.Plugins.{Plugin}
use ploston_core.Engine.{
  StepResult, is_completed, is_failed, is_skipped, ExecutionContext, add_step_result, Backend,
}
use ploston_core.Engine.Run.{Steps, cascade_result, run_order}
use ploston_core.Engine.Run.Rule.{Rule, steps_loop-Ends}
use ploston_core.Engine.Outputs.{compute_outputs}
use ploston_core.Engine.Execute.{
  ExecutionResult, count_status, response_ready, result_of, conclude, conclude_final, conclude_from,
}
use ploston_core.Engine.Attempts.{IsSettled}

-- Every entry stands under its own step id and is completed or skipped.
abbrev pub IsFine : Assoc StepResult → Type 0
IsFine [] = Unit
IsFine ((k, r) ∷ results) =
    (r.step_id ≡ k) × ((is_completed r.status || is_skipped r.status) ≡ true) × IsFine results

keys-insert :
    (k : String) (r : StepResult) (results : Assoc StepResult)
    → occurs k (keys results) ≡ 0
    → keys (insert k r results) ≡ keys results ++ k ∷ []
unfolding insert occurs
keys-insert k r [] h = refl
keys-insert k r ((j, q) ∷ results) h = ground (arith, keys-insert k r results)

insert-IsFine :
    (k : String) (r : StepResult) (results : Assoc StepResult)
    → r.step_id ≡ k
    → (is_completed r.status || is_skipped r.status) ≡ true
    → IsFine results
    → IsFine (insert k r results)
unfolding insert
insert-IsFine k r [] own fine rest = (own, fine, tt)
insert-IsFine k r ((j, q) ∷ results) own fine (o, f, rest) =
    ground (arith, eq_iff j k, insert-IsFine k r results own fine rest)

count_one :
    (s : StepStatus)
    → (is_completed s || is_skipped s) ≡ true
    → (is_failed s ≡ false)
      × ((if is_completed s then 1 else 0) + (if is_skipped s then 1 else 0) ≡ 1)
unfolding is_completed is_failed is_skipped
count_one s h = ground arith

pub count_fine :
    (results : Assoc StepResult)
    → IsFine results
    → (count_status is_failed (values results) ≡ 0)
      × (count_status is_completed (values results) + count_status is_skipped (values results)
          ≡ length (keys results))
      × (map (λ r. r.step_id) (values results) ≡ keys results)
unfolding count_status
count_fine [] fine = (refl, refl, refl)
count_fine ((k, r) ∷ results) (o, f, rest) =
    let (a, c, m) = count_fine results rest in
    let (x, y) = count_one r.status f in (rw x (omega (arith, a)), omega (arith, y, c), cc)

-- The results are those of the plan's steps before `ks`, in order.
pub record IsPrefix (wf : WorkflowDefinition) (plan ks : List String) (c : ExecutionContext)
    : Type 0 where
  pub same : c.workflow ≡ wf
  pub fine : IsFine c.step_results
  pub split : keys c.step_results ++ ks ≡ plan

module _ {W : Type 0} (b : Backend W) (wf : WorkflowDefinition) (distinct : Distinct (ids wf.steps))
    (plan : List String) (all : (k : String) → occurs k plan ≡ occurs k (ids wf.steps)) where
  abbrev Before : List String → ExecutionContext → Type 0
  Before = IsPrefix wf plan

  module _ (k : String) (ks : List String) (c : ExecutionContext) (p : Before (k ∷ ks) c) where
    occurs_split : (j : String) → occurs j (keys c.step_results) + occurs j (k ∷ ks) ≡ occurs j plan
    occurs_split j = sym (occurs-append j (keys c.step_results) (k ∷ ks)) ∙ ap (occurs j) p.split

    occurs_self : occurs k (k ∷ ks) ≡ suc (occurs k ks)
    unfolding occurs
    occurs_self = ground (arith, eq_refl k)

    found : (s : StepDefinition) × (get_step c.workflow k ≡ some s)
    unfolding get_step
    found =
        rw p.same (find_step-found wf.steps k (omega (arith, occurs_split k, occurs_self, all k)))

    next :
        (s : StepDefinition) (r : StepResult)
        → get_step c.workflow k ≡ some s
        → r.step_id ≡ s.id
        → (is_completed r.status || is_skipped r.status) ≡ true
        → Before ks (add_step_result b.show r c)
    unfolding add_step_result get_step
    next s r got own settled =
        let id_is : r.step_id ≡ k =
          own ∙ (graph-found wf.steps k s distinct (rw p.same at got)).0 in
        let new : occurs r.step_id (keys c.step_results) ≡ 0 =
          subst (λ x. occurs x (keys c.step_results) ≡ 0) (sym id_is)
            (omega (arith, occurs_split k, occurs_self, all k, distinct k)) in
        record {
          same = p.same;
          fine = insert-IsFine r.step_id r c.step_results refl settled p.fine;
          split =
              ap (λ l. l ++ ks) (keys-insert r.step_id r c.step_results new)
              ∙ append_assoc (keys c.step_results) (r.step_id ∷ []) ks
              ∙ ap (λ x. keys c.step_results ++ x ∷ ks) id_is
              ∙ p.split;
        }

  totals_rule : Rule b Before (λ c raised. raised ≡ none → IsPrefix wf plan [] c)
  totals_rule = record {
    finish = λ c p e. p;
    found = found;
    cascade = λ k ks c s root p got.
        next k ks c p s (cascade_result s.id root) got (cascade_id s.id root)
          (cascade_skipped s.id root);
    ran = λ k ks c s r p got free returned fine.
        next k ks c p s r got returned.own.0 (settled_fine r.status returned.own.1 fine);
    stopped = λ k ks c s r e p got free returned failed q. cc;
    raised = λ k ks c e p q. cc;
  }
    where
      cascade_id :
          (id : String) (root : String × StepResult) → (cascade_result id root).step_id ≡ id
      cascade_id id root = unfold cascade_result in refl

      cascade_skipped :
          (id : String) (root : String × StepResult)
          → (is_completed (cascade_result id root).status
              || is_skipped (cascade_result id root).status)
            ≡ true
      cascade_skipped id root = unfold cascade_result is_completed is_skipped in refl

      settled_fine :
          (s : StepStatus)
          → IsSettled s
          → is_failed s ≡ false
          → (is_completed s || is_skipped s) ≡ true
      settled_fine s h f = ground arith

module _ {W : Type 0} (b : Backend W) (plugins : Option (List Plugin)) where
  conclude_final_inv :
      (s : Steps W) (final : Result (Assoc Value)) {r : ExecutionResult}
      → conclude_final b plugins s final ≡ ok r
      → (outputs : Assoc Value) × (result_of b plugins s outputs ≡ r)
  unfolding conclude_final
  conclude_final_inv s (err e) h = cc
  conclude_final_inv s (ok final) h = (final, cc)

  conclude_from_inv :
      (s : Steps W) (computed : Result (Assoc Value)) {r : ExecutionResult}
      → conclude_from b plugins s computed ≡ ok r
      → (outputs : Assoc Value) × (result_of b plugins s outputs ≡ r)
  unfolding conclude_from
  conclude_from_inv s (err e) h = cc
  conclude_from_inv s (ok outputs) h = conclude_final_inv s (response_ready b plugins s outputs) h

  pub run_order-IsWhole :
      (c : ExecutionContext) (w : W) (o : Order)
      → Distinct (ids c.workflow.steps)
      → c.step_results ≡ []
      → get_execution_order c.workflow ≡ o
      → (run_order b plugins o c w).raised ≡ none
      → (plan : List String) × (o ≡ order plan)
        × ((k : String) → occurs k plan ≡ occurs k (ids c.workflow.steps))
        × IsPrefix c.workflow plan [] (run_order b plugins o c w).context
  unfolding run_order
  run_order-IsWhole c w (order plan) distinct empty e fine =
      let (all, placed) = get_execution_order_topological c.workflow plan distinct e in
      (
        plan,
        refl,
        all,
        steps_loop-Ends b plugins (IsPrefix c.workflow plan)
            (λ d raised. raised ≡ none → IsPrefix c.workflow plan [] d)
            (totals_rule b c.workflow distinct plan all) (length plan) 0 plan c w
            (record { same = refl; fine = rw empty tt; split = rw empty }) fine,
      )
  run_order-IsWhole c w circular distinct empty e fine = cc
  run_order-IsWhole c w no_fuel distinct empty e fine = cc

  pub conclude_inv :
      (s : Steps W) {r : ExecutionResult}
      → conclude b plugins s ≡ ok r
      → (outputs : Assoc Value) × (result_of b plugins s outputs ≡ r)
  unfolding conclude
  conclude_inv s h =
      conclude_from_inv s (compute_outputs b s.context s.context.workflow.outputs []) h
