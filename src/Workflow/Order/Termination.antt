-- ===== src/Workflow/Order/Termination.antt =====
-- The loop of `get_execution_order` ends: each round pops one id, and an id is queued once at most.
use ploston_core.Prelude.{
  ℕ, zero, suc, ◌+◌, ◌≤◌, ◌<◌, String, ◌≡◌, refl, ◌≢◌, ◌⊎◌, inl, inr, true, false, Option, none,
  some, List, [], ◌∷◌, ◌++◌, map, arith, eq_iff, eq_refl, length, length-append, select, mem,
  Bool-cases, if◌then◌else◌,
}
use ploston_core.Prelude.Int.{ℤ, pos, negsuc, pred_ℤ, is_zero, is_positive}
use ploston_core.Workflow.{StepDefinition, WorkflowDefinition}
use ploston_core.Workflow.Order.{
  update, step_index, graph, id_keys, initial_degree, place, sort_by, relax, kahn, no_fuel,
  initial_queue, finish, run_loop, order_of, get_execution_order,
}

abbrev ids : List StepDefinition → List String
ids = map (λ s. s.id)

-- The steps whose id still waits for a dependency.
positives : List StepDefinition → (String → ℤ) → ℕ
positives [] degree = 0
positives (s ∷ steps) degree = (if is_positive (degree s.id) then 1 else 0) + positives steps degree

positive-pred : (d : ℤ) → is_positive d ≡ false → is_positive (pred_ℤ d) ≡ false
unfolding is_positive pred_ℤ
positive-pred (pos zero) h = refl
positive-pred (pos (suc n)) h = ground arith
positive-pred (negsuc n) h = refl

positive_of_zero-pred :
    (d : ℤ) → is_zero (pred_ℤ d) ≡ true → (is_positive d ≡ true) × (is_positive (pred_ℤ d) ≡ false)
unfolding is_zero is_positive pred_ℤ
positive_of_zero-pred (pos zero) h = ground arith
positive_of_zero-pred (pos (suc zero)) h = (refl, refl)
positive_of_zero-pred (pos (suc (suc n))) h = ground arith
positive_of_zero-pred (negsuc n) h = ground arith

module _ (degree : String → ℤ) (k : String) where
  abbrev lowered : String → ℤ
  lowered = update degree k (pred_ℤ (degree k))

  positives-lowered-le :
      (steps : List StepDefinition) → positives steps lowered ≤ positives steps degree
  unfolding positives update
  positives-lowered-le [] = omega arith
  positives-lowered-le (s ∷ steps) =
      ground (arith, positives-lowered-le steps, eq_iff k s.id, positive-pred (degree k))

  positives-lowered-lt :
      (steps : List StepDefinition)
      → mem k (ids steps) ≡ true
      → is_zero (pred_ℤ (degree k)) ≡ true
      → positives steps lowered < positives steps degree
  unfolding positives update mem
  positives-lowered-lt [] m z = ground arith
  positives-lowered-lt (s ∷ steps) m z = ground (
    arith,
    positives-lowered-lt steps,
    positives-lowered-le steps,
    eq_iff k s.id,
    eq_iff s.id k,
    positive_of_zero-pred (degree k),
  )

-- The steps still to be visited are steps of the workflow.
abbrev Within : List StepDefinition → List StepDefinition → Type 0
Within [] steps = Unit
Within (s ∷ todo) steps = (mem s.id (ids steps) ≡ true) × Within todo steps

Within-cons :
    (s : StepDefinition) (todo steps : List StepDefinition)
    → Within todo steps
    → Within todo (s ∷ steps)
unfolding mem
Within-cons s [] steps w = tt
Within-cons s (t ∷ todo) steps w = (ground (arith, w.0), Within-cons s todo steps w.1)

Within-refl : (steps : List StepDefinition) → Within steps steps
unfolding mem
Within-refl [] = tt
Within-refl (s ∷ steps) =
    (ground (arith, eq_refl s.id), Within-cons s steps steps (Within-refl steps))

module _ (g : String → List String) (steps : List StepDefinition) where
  abbrev measure : (String → ℤ) → List String → ℕ
  measure degree queue = length queue + positives steps degree

  measure-relax-le :
      (current : String) (todo : List StepDefinition) (degree : String → ℤ) (queue : List String)
      → Within todo steps
      → measure (relax g current todo degree queue).0 (relax g current todo degree queue).1
        ≤ measure degree queue
  unfolding relax
  measure-relax-le current [] degree queue w = omega arith
  measure-relax-le current (s ∷ todo) degree queue w = elim (Bool-cases (mem current (g s.id))) [
    | inr miss ↦ rw (miss, relax) (measure-relax-le current todo degree queue w.1)
    | inl hit ↦ elim (Bool-cases (is_zero (pred_ℤ (degree s.id)))) [
      | inl z ↦
          rw (hit, z, relax)
            (omega (
              arith,
              measure-relax-le current todo (lowered degree s.id) (queue ++ s.id ∷ []) w.1,
              length-append queue (s.id ∷ []),
              positives-lowered-lt degree s.id steps w.0 z,
            ))
      | inr nz ↦
          rw (hit, nz, relax)
            (omega (
              arith,
              measure-relax-le current todo (lowered degree s.id) queue w.1,
              positives-lowered-le degree s.id steps,
            ))
    ]
  ]

length-place :
    (index : String → ℕ) (x : String) (ys : List String)
    → length (place index x ys) ≡ suc (length ys)
unfolding place
length-place index x [] = refl
length-place index x (y ∷ ys) = ground (arith, length-place index x ys)

pub length-sort_by : (index : String → ℕ) (xs : List String) → length (sort_by index xs) ≡ length xs
unfolding sort_by
length-sort_by index [] = refl
length-sort_by index (x ∷ xs) =
    omega (arith, length-place index x (sort_by index xs), length-sort_by index xs)

pub List-cases :
    (xs : List String) → (xs ≡ []) ⊎ ((y : String) × (ys : List String) × (xs ≡ y ∷ ys))
List-cases [] = inl refl
List-cases (y ∷ ys) = inr (y, ys, refl)

kahn-ne-none :
    (index : String → ℕ) (g : String → List String) (steps : List StepDefinition) (fuel : ℕ)
    (degree : String → ℤ) (queue result : List String)
    → measure g steps degree queue < fuel
    → kahn index g steps fuel degree queue result ≢ none
unfolding kahn
kahn-ne-none index g steps zero degree queue result h = absurd (omega arith)
kahn-ne-none index g steps (suc fuel) degree queue result h =
    elim (List-cases (sort_by index queue)) [
      | inl e ↦ rw (e, kahn) (λ p. cc)
      | inr (y, ys, e) ↦
          let next = relax g y steps degree ys in
          rw (e, kahn)
            (kahn-ne-none index g steps fuel next.0 next.1 (result ++ y ∷ []) (
              omega (
                arith,
                measure-relax-le g steps y steps degree ys (Within-refl steps),
                length-sort_by index queue,
                ap_length e,
              )))
    ]
  where
    ap_length : {xs ys : List String} → xs ≡ ys → length xs ≡ length ys
    ap_length p = cc

not_positive_of_zero : (d : ℤ) → is_zero d ≡ true → is_positive d ≡ false
unfolding is_zero is_positive
not_positive_of_zero (pos zero) h = refl
not_positive_of_zero (pos (suc n)) h = cc
not_positive_of_zero (negsuc n) h = refl

initial_measure :
    (g : String → List String) (seen : List String) (steps : List StepDefinition)
    → length (select (λ k. is_zero (initial_degree g k)) (id_keys seen steps))
        + positives steps (initial_degree g)
      ≤ length steps
unfolding select id_keys positives
initial_measure g seen [] = omega arith
initial_measure g seen (s ∷ steps) = ground (
  arith,
  initial_measure g (s.id ∷ seen) steps,
  initial_measure g seen steps,
  not_positive_of_zero (initial_degree g s.id),
)

initial_measure-lt :
    (steps : List StepDefinition)
    → measure (graph steps) steps (initial_degree (graph steps)) (initial_queue steps)
      < suc (length steps)
unfolding initial_queue
initial_measure-lt steps = omega (arith, initial_measure (graph steps) [] steps)

finish-ne-no_fuel :
    (steps : List StepDefinition) (r : Option (List String)) → r ≢ none → finish steps r ≢ no_fuel
unfolding finish
finish-ne-no_fuel steps none h e = h refl
finish-ne-no_fuel steps (some result) h e = ground arith

pub run_loop-ne-none : (steps : List StepDefinition) → run_loop steps ≢ none
unfolding run_loop
run_loop-ne-none steps =
    kahn-ne-none (step_index steps) (graph steps) steps (suc (length steps))
      (initial_degree (graph steps)) (initial_queue steps) [] (initial_measure-lt steps)

-- `get_execution_order` always ends, whatever the steps: the fuel of one more than the number of
-- steps is never used up.
pub get_execution_order_ends : (w : WorkflowDefinition) → get_execution_order w ≢ no_fuel
unfolding get_execution_order order_of
get_execution_order_ends w = finish-ne-no_fuel w.steps (run_loop w.steps) (run_loop-ne-none w.steps)
