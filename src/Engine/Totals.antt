-- ===== src/Engine/Totals.antt =====
-- What a completed run has executed and counted.
use mathlib.Core.Path.{subst}
use mathlib.Core.List.{append-nil}
use ploston_core.Prelude.{
  suc, ◌+◌, String, ◌≡◌, refl, sym, ap, ◌∙◌, Option, none, some, List, [], ◌∷◌, map, arith, length,
}
use ploston_core.Prelude.Assoc.{Assoc, keys, values}
use ploston_core.Prelude.Count.{occurs, Distinct}
use ploston_core.Errors.{Exc, Result, ok, err}
use ploston_core.Types.{ExecutionStatus}
use ploston_core.Value.{Value}
use ploston_core.Workflow.{WorkflowDefinition}
use ploston_core.Workflow.Order.{order, get_execution_order}
use ploston_core.Workflow.Order.Relaxed.{ids}
use ploston_core.Plugins.{Plugin}
use ploston_core.Engine.{StepResult, Backend}
use ploston_core.Engine.Run.{run_order, execute_steps, request_received}
use ploston_core.Engine.Outputs.{validate_inputs}
use ploston_core.Engine.Execute.{
  ExecutionResult, status_of, rejected, start_context, result_of, run_validated, run_received,
  execute_workflow,
}
use ploston_core.Engine.Planned.{count_fine, run_order-IsWhole, conclude_inv}

-- The results of a run are listed in the execution order, one for each step, none failed.
pub record IsComplete (wf : WorkflowDefinition) (r : ExecutionResult) : Type 0 where
  pub in_order : get_execution_order wf ≡ order (map (λ s. s.step_id) r.steps)
  pub one_each : (k : String) → occurs k (map (λ s. s.step_id) r.steps) ≡ occurs k (ids wf.steps)
  pub none_failed : r.steps_failed ≡ 0
  pub counted : r.steps_completed + r.steps_skipped ≡ length r.steps

length-values : (results : Assoc StepResult) → length (values results) ≡ length (keys results)
length-values [] = refl
length-values (e ∷ results) = ap suc (length-values results)

no_exception : (raised : Option Exc) → status_of raised ≡ ExecutionStatus.completed → raised ≡ none
no_exception none h = refl
no_exception (some e) h = cc

module _ {W : Type 0} (b : Backend W) (plugins : Option (List Plugin)) (wf : WorkflowDefinition)
    (distinct : Distinct (ids wf.steps)) where
  result_of-IsComplete :
      (id : String) (inputs outputs : Assoc Value) (w : W)
      → (execute_steps b plugins (start_context id wf inputs) w).raised ≡ none
      → IsComplete wf
          (result_of b plugins (execute_steps b plugins (start_context id wf inputs) w) outputs)
  unfolding execute_steps
  result_of-IsComplete id inputs outputs w fine =
      let c = start_context id wf inputs in
      let results = (run_order b plugins (get_execution_order wf) c w).context.step_results in
      let (plan, o, all, whole) =
        run_order-IsWhole b plugins c w (get_execution_order wf) distinct refl refl fine in
      let (a, n, m) = count_fine results whole.fine in
      let planned : map (λ s. s.step_id) (values results) ≡ plan =
        m ∙ sym (append-nil (keys results)) ∙ whole.split in
      record {
        in_order = o ∙ ap order (sym planned);
        one_each = λ k. ap (occurs k) planned ∙ all k;
        none_failed = a;
        counted = n ∙ sym (length-values results);
      }

  run_validated-IsComplete :
      (id : String) (checked : Assoc Value × Option Exc) (w : W) {r : ExecutionResult}
      → (run_validated b plugins id wf checked w).0 ≡ ok r
      → r.status ≡ ExecutionStatus.completed
      → IsComplete wf r
  unfolding run_validated rejected
  run_validated-IsComplete id (inputs, some e) w h done = ground arith
  run_validated-IsComplete id (inputs, none) w {r} h done =
      let s = execute_steps b plugins (start_context id wf inputs) w in
      let (outputs, is) = conclude_inv b plugins s h in
      let fine : s.raised ≡ none = no_exception s.raised (cc (is, done)) in
      subst (IsComplete wf) is (result_of-IsComplete id inputs outputs w fine)

  run_received-IsComplete :
      (id : String) (current : Result (Assoc Value)) (w : W) {r : ExecutionResult}
      → (run_received b plugins id wf current w).0 ≡ ok r
      → r.status ≡ ExecutionStatus.completed
      → IsComplete wf r
  unfolding run_received
  run_received-IsComplete id (err e) w h done = ground arith
  run_received-IsComplete id (ok current) w h done =
      run_validated-IsComplete id (validate_inputs wf current) w h done

-- Where `execute_workflow` returns a result with status COMPLETED, for a workflow with distinct
-- step ids: the results are listed in the execution order with exactly one for each step, no step
-- is counted as failed, and the completed and the skipped ones together are all results.
pub execute_workflow_completed :
    {W : Type 0} (b : Backend W) (plugins : Option (List Plugin)) (id : String)
    (wf : WorkflowDefinition) (inputs : Assoc Value) (w : W) (r : ExecutionResult)
    → Distinct (ids wf.steps)
    → (execute_workflow b plugins id wf inputs w).0 ≡ ok r
    → r.status ≡ ExecutionStatus.completed
    → IsComplete wf r
unfolding execute_workflow
execute_workflow_completed b plugins id wf inputs w r distinct h done =
    run_received-IsComplete b plugins wf distinct id (request_received b plugins id wf inputs) w h
      done
