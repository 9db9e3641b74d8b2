-- ===== src/Engine/Safety.antt =====
-- A step is executed only where every step that it depends on has completed.
use mathlib.Core.Path.{subst}
use ploston_core.Prelude.{
  suc, ◌+◌, ◌≤◌, ◌<◌, String, ◌≡◌, refl, sym, ap, ◌∙◌, false, ◌||◌, Option, none, some, List, [],
  ◌∷◌, arith, eq_refl, length,
}
use ploston_core.Prelude.Assoc.{lookup}
use ploston_core.Prelude.Count.{occurs, Distinct}
use ploston_core.Errors.{Exc}
use ploston_core.Workflow.{StepDefinition, WorkflowDefinition, get_step}
use ploston_core.Workflow.Order.{
  Order, order, circular, no_fuel, graph, deps_of, get_execution_order,
}
use ploston_core.Workflow.Order.Relaxed.{ids}
use ploston_core.Workflow.Order.Topology.{IsPlaced, get_execution_order_topological}
use ploston_core.Workflow.Order.Found.{graph-found, find_step-found}
use ploston_core.Plugins.{Plugin}
use ploston_core.Engine.{
  StepResult, is_completed, is_failed, is_skipped, ExecutionContext, add_step_result,
  find_failed_dependency, Backend,
}
use ploston_core.Engine.Run.{cascade_result, run_order, execute_steps}
use ploston_core.Engine.Run.Rule.{Rule, steps_loop-Ends}
use ploston_core.Engine.Calls.{AreDone, Runs, ended, steps_loop-Runs}
use ploston_core.Types.{StepStatus}
use ploston_core.Engine.{step_result}
use ploston_core.Engine.Attempts.{IsSettled}
use ploston_core.Engine.Recorded.{
  IsDone, IsSafe, IsRecorded, is_cascade, find_failed-none, added-IsRecorded, added-IsSafe,
}

module _ {W : Type 0} (b : Backend W) (plugins : Option (List Plugin)) (wf : WorkflowDefinition)
    (distinct : Distinct (ids wf.steps)) where
  abbrev g : String → List String
  g = graph wf.steps

  -- Before the steps of `ks`: the steps of `seen` have results.
  record Before (ks : List String) (c : ExecutionContext) : Type 0 where
    seen : List String
    same : c.workflow ≡ wf
    placed : IsPlaced g seen ks
    apart : (k : String) → occurs k seen + occurs k ks ≤ 1
    steps : (k : String) → 0 < occurs k ks → 0 < occurs k (ids wf.steps)
    recorded : IsRecorded seen c
    safe : IsSafe g c

  occurs_head : (k : String) (ks : List String) → occurs k (k ∷ ks) ≡ suc (occurs k ks)
  unfolding occurs
  occurs_head k ks = ground (arith, eq_refl k)

  occurs_move :
      (j k : String) (seen ks : List String)
      → occurs j (k ∷ seen) + occurs j ks ≡ occurs j seen + occurs j (k ∷ ks)
  unfolding occurs
  occurs_move j k seen ks = omega arith

  occurs_rest : (j k : String) (ks : List String) → occurs j ks ≤ occurs j (k ∷ ks)
  unfolding occurs
  occurs_rest j k ks = omega arith

  module _ (k : String) (ks : List String) (c : ExecutionContext) (p : Before (k ∷ ks) c) where
    unseen : occurs k p.seen ≡ 0
    unseen = omega (arith, p.apart k, occurs_head k ks)

    found : (s : StepDefinition) × (get_step c.workflow k ≡ some s)
    unfolding get_step
    found = rw p.same (find_step-found wf.steps k (p.steps k (omega (arith, occurs_head k ks))))

    module _ (s : StepDefinition) (got : get_step c.workflow k ≡ some s) where
      step_facts : (s.id ≡ k) × (g k ≡ deps_of s)
      unfolding get_step
      step_facts = graph-found wf.steps k s distinct (rw p.same at got)

      next :
          (r : StepResult)
          → r.step_id ≡ s.id
          → IsSettled r.status
          → (is_cascade r.skip_reason ≡ false
              → (d : String) → 0 < occurs d (g r.step_id)
              → IsDone d c)
          → Before ks (add_step_result b.show r c)
      next r own settled done =
          let id_is : r.step_id ≡ k = own ∙ step_facts.0 in
          let free : occurs r.step_id p.seen ≡ 0 = rw id_is unseen in
          record {
            seen = k ∷ p.seen;
            same = unfold add_step_result in p.same;
            placed = p.placed.1;
            apart = λ j. omega (arith, p.apart j, occurs_move j k p.seen ks);
            steps = λ j h. p.steps j (omega (arith, occurs_rest j k ks));
            recorded =
                subst (λ x. IsRecorded (x ∷ p.seen) (add_step_result b.show r c)) id_is
                  (added-IsRecorded b.show g p.seen c r free settled p.recorded);
            safe = added-IsSafe b.show g p.seen c r free p.recorded p.safe done;
          }

      -- Without a failed dependency, all of the dependencies have completed.
      deps_completed :
          (r : StepResult)
          → r.step_id ≡ s.id
          → find_failed_dependency s c ≡ none
          → (d : String) → 0 < occurs d (g r.step_id)
          → IsDone d c
      unfolding find_failed_dependency
      deps_completed r own free d m =
          let at_k : 0 < occurs d (g k) = subst (λ x. 0 < occurs d (g x)) (own ∙ step_facts.0) m in
          let (q, e, settled) = p.recorded.there d (p.placed.0 d at_k) in
          let clean : (is_failed q.status || is_skipped q.status) ≡ false =
            find_failed-none (deps_of s) c.step_results d q free
              (subst (λ l. 0 < occurs d l) step_facts.1 at_k) e in
          (q, e, ground arith)

      next_cascade :
          (root : String × StepResult)
          → Before ks (add_step_result b.show (cascade_result s.id root) c)
      unfolding cascade_result is_skipped is_completed is_failed
      next_cascade root = next (cascade_result s.id root) refl refl (λ h. cc)

  ready :
      (k : String) (ks : List String) (c : ExecutionContext) (s : StepDefinition)
      → Before (k ∷ ks) c
      → get_step c.workflow k ≡ some s
      → find_failed_dependency s c ≡ none
      → AreDone s c
  ready k ks c s p got free d m =
      let (id_is, deps_are) = step_facts k ks c p s got in
      deps_completed k ks c p s got (step_result s.id StepStatus.skipped) refl free d
        (subst (λ l. 0 < occurs d l) (sym deps_are ∙ ap g (sym id_is)) m)

  IsSafe-rule : Rule b Before (λ c raised. IsSafe g c)
  IsSafe-rule = record {
    finish = λ c p. p.safe;
    found = found;
    cascade = λ k ks c s root p got. next_cascade k ks c p s got root;
    ran = λ k ks c s r p got free returned fine.
        next k ks c p s got r returned.own.0 returned.own.1
          (λ _. deps_completed k ks c p s got r returned.own.0 free);
    stopped = λ k ks c s r e p got free returned failed.
        (next k ks c p s got r returned.own.0 returned.own.1
          (λ _. deps_completed k ks c p s got r returned.own.0 free)).safe;
    raised = λ k ks c e p. p.safe;
  }

  Before-start :
      (ks : List String) (c : ExecutionContext)
      → c.workflow ≡ wf
      → c.step_results ≡ []
      → ((k : String) → occurs k ks ≡ occurs k (ids wf.steps))
      → IsPlaced g [] ks
      → Before ks c
  unfolding lookup is_completed
  Before-start ks c same empty all placed = record {
    seen = [];
    same = same;
    placed = placed;
    apart = λ k. unfold occurs in omega (arith, all k, distinct k);
    steps = λ k h. omega (arith, all k);
    recorded = record {
      there = λ d h. absurd (unfold occurs in omega arith);
      fresh = λ d h. rw empty (unfold lookup in refl);
    };
    safe = λ k r e. cc (rw empty at e);
  }

  IsSafe-start : (c : ExecutionContext) → c.step_results ≡ [] → IsSafe g c
  unfolding lookup is_completed
  IsSafe-start c empty k r e = cc (rw empty at e)

  run_order-IsSafe :
      (c : ExecutionContext) (w : W) (o : Order)
      → c.workflow ≡ wf
      → c.step_results ≡ []
      → get_execution_order wf ≡ o
      → IsSafe g (run_order b plugins o c w).context
        × Runs b plugins c w (run_order b plugins o c w)
  unfolding run_order
  run_order-IsSafe c w (order ks) same empty e =
      let (all, placed) = get_execution_order_topological wf ks distinct e in
      let start = Before-start ks c same empty all placed in
      (
        steps_loop-Ends b plugins Before (λ c raised. IsSafe g c) IsSafe-rule (length ks) 0 ks c w
            start,
        steps_loop-Runs b plugins Before (λ c raised. IsSafe g c) IsSafe-rule ready (length ks) 0 ks
            c w start,
      )
  run_order-IsSafe c w circular same empty e =
      (IsSafe-start c empty, ended (some Exc.value_error) refl)
  run_order-IsSafe c w no_fuel same empty e =
      (IsSafe-start c empty, ended (some (Exc.other "no_fuel")) refl)

-- Whatever the tools, the code, the plugins and the failures do, `_execute_steps` from a context
-- without results, for a workflow with distinct step ids, executes a step only where all of its
-- dependencies have completed in the context at that time, also where the execution raises, and
-- nothing but these executions reaches the outside. In the context at the end every step with a
-- result that is not a cascade skip has all of its dependencies completed.
pub execute_steps-IsSafe :
    {W : Type 0} (b : Backend W) (plugins : Option (List Plugin)) (c : ExecutionContext) (w : W)
    → Distinct (ids c.workflow.steps)
    → c.step_results ≡ []
    → IsSafe (graph c.workflow.steps) (execute_steps b plugins c w).context
      × Runs b plugins c w (execute_steps b plugins c w)
unfolding execute_steps
execute_steps-IsSafe b plugins c w distinct empty =
    run_order-IsSafe b plugins c.workflow distinct c w (get_execution_order c.workflow) refl empty
      refl
