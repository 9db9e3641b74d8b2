-- ===== src/Workflow/Order/Relaxed.antt =====
-- The inner loop of `get_execution_order`, and the sort of its queue: what they do to the degrees and
-- to how often an id is queued.
use ploston_core.Prelude.{
  ℕ, ◌+◌, ◌≤◌, String, ◌≡◌, refl, ap, ◌∙◌, ◌&&◌, List, [], ◌∷◌, ◌++◌, map, arith, ◌==◌, eq_iff, mem,
  if◌then◌else◌,
}
use ploston_core.Prelude.Int.{ℤ, pred_ℤ, is_zero}
use ploston_core.Prelude.Count.{occurs, occurs-append}
use ploston_core.Workflow.{StepDefinition}
use ploston_core.Workflow.Order.{update, place, sort_by, relax}
use ploston_core.Workflow.Order.Lowered.{lower, lower_twice}

abbrev pub ids : List StepDefinition → List String
ids = map (λ s. s.id)

occurs-place :
    (k : String) (index : String → ℕ) (x : String) (ys : List String)
    → occurs k (place index x ys) ≡ occurs k (x ∷ ys)
unfolding occurs place
occurs-place k index x [] = refl
occurs-place k index x (y ∷ ys) = ground (arith, occurs-place k index x ys)

pub occurs-sort_by :
    (k : String) (index : String → ℕ) (xs : List String) → occurs k (sort_by index xs) ≡ occurs k xs
unfolding occurs sort_by
occurs-sort_by k index [] = refl
occurs-sort_by k index (x ∷ xs) =
    omega (arith, occurs-place k index x (sort_by index xs), occurs-sort_by k index xs)

module _ (g : String → List String) (current : String) where
  -- The degrees and the queue after one step of the inner loop.
  abbrev degree_after : StepDefinition → (String → ℤ) → String → ℤ
  degree_after s degree =
      if mem current (g s.id) then update degree s.id (pred_ℤ (degree s.id)) else degree

  abbrev queue_after : StepDefinition → (String → ℤ) → List String → List String
  queue_after s degree queue =
      if mem current (g s.id)
      then (if is_zero (pred_ℤ (degree s.id)) then queue ++ s.id ∷ [] else queue)
      else queue

  degree_after_lem :
      (k : String) (s : StepDefinition) (degree : String → ℤ)
      → degree_after s degree k
        ≡ lower (if mem current (g k) then (if s.id == k then 1 else 0) else 0) (degree k)
  unfolding update lower
  degree_after_lem k s degree = ground (arith, eq_iff s.id k)

  occurs-queue_after :
      (k : String) (s : StepDefinition) (degree : String → ℤ) (queue : List String)
      → occurs k (queue_after s degree queue)
        ≡ occurs k queue
          + (if mem current (g k) && is_zero (pred_ℤ (degree k))
              then (if s.id == k then 1 else 0)
              else 0)
  unfolding occurs
  occurs-queue_after k s degree queue =
      ground (arith, eq_iff s.id k, occurs-append k queue (s.id ∷ []))

  -- After the inner loop the degree of an id that depends on the popped one is one lower.
  pub degree-relax :
      (k : String) (todo : List StepDefinition) (degree : String → ℤ) (queue : List String)
      → (relax g current todo degree queue).0 k
        ≡ lower (if mem current (g k) then occurs k (ids todo) else 0) (degree k)
  unfolding relax occurs lower
  degree-relax k [] degree queue = ground arith
  degree-relax k (s ∷ todo) degree queue =
      degree-relax k todo (degree_after s degree) (queue_after s degree queue)
      ∙ ap (lower (if mem current (g k) then occurs k (ids todo) else 0))
          (degree_after_lem k s degree)
      ∙ lower_twice (mem current (g k)) (s.id == k) (occurs k (ids todo)) (degree k)

  -- The inner loop queues exactly the ids whose degree becomes zero.
  pub occurs-relax :
      (k : String) (todo : List StepDefinition) (degree : String → ℤ) (queue : List String)
      → occurs k (ids todo) ≤ 1
      → occurs k (relax g current todo degree queue).1
        ≡ occurs k queue
          + (if mem current (g k) && is_zero (pred_ℤ (degree k)) then occurs k (ids todo) else 0)
  unfolding relax occurs
  occurs-relax k [] degree queue h = ground arith
  occurs-relax k (s ∷ todo) degree queue h = ground (
    arith,
    occurs-relax k todo (degree_after s degree) (queue_after s degree queue),
    degree_after_lem k s degree,
    occurs-queue_after k s degree queue,
  )
