-- ===== src/Workflow/Order/Topology.antt =====
-- What `get_execution_order` returns, for steps with distinct ids.
use mathlib.Core.Logic.{◌≢◌}
use ploston_core.Prelude.{
  ℕ, zero, suc, ◌+◌, ◌≤◌, ◌<◌, String, ◌≡◌, refl, sym, ap, ◌∙◌, inl, inr, Bool, Option, none, some,
  List, [], ◌∷◌, ◌++◌, arith, eq_iff, eq_refl, length, select, hits, if◌then◌else◌,
}
use ploston_core.Prelude.Int.{ℤ, is_zero}
use ploston_core.Prelude.Count.{
  occurs, Distinct, occurs_of_mem, mem_of_occurs, occurs_of_full, Distinct-of_full,
}
use ploston_core.Workflow.{StepDefinition, WorkflowDefinition}
use ploston_core.Workflow.Order.{
  order, graph, step_index, id_keys, initial_degree, sort_by, relax, kahn, initial_queue, finish,
  run_loop, order_of, get_execution_order,
}
use ploston_core.Workflow.Order.Termination.{List-cases}
use ploston_core.Workflow.Order.Lowered.{lower}
use ploston_core.Workflow.Order.Relaxed.{ids, occurs-sort_by}
use ploston_core.Workflow.Order.Invariant.{
  Inv, Inv-round, Distinct-done, all_hit, deps_done, occurs_popped,
}

-- Every dependency of a text of the list stands in `seen` or before it.
abbrev pub IsPlaced : (String → List String) → List String → List String → Type 0
IsPlaced g seen [] = Unit
IsPlaced g seen (x ∷ xs) =
    ((d : String) → 0 < occurs d (g x) → 0 < occurs d seen) × IsPlaced g (x ∷ seen) xs

IsPlaced-snoc :
    (g : String → List String) (seen xs : List String) (c : String)
    → IsPlaced g seen xs
    → ((d : String) → 0 < occurs d (g c) → 0 < occurs d seen + occurs d xs)
    → IsPlaced g seen (xs ++ c ∷ [])
unfolding occurs
IsPlaced-snoc g seen [] c p h = (λ d m. omega (arith, h d m), tt)
IsPlaced-snoc g seen (x ∷ xs) c p h =
    (p.0, IsPlaced-snoc g (x ∷ seen) xs c p.1 (λ d m. omega (arith, h d m)))

occurs-select :
    (k : String) (p : String → Bool) (xs : List String)
    → occurs k (select p xs) ≡ (if p k then occurs k xs else 0)
unfolding occurs select
occurs-select k p [] = ground arith
occurs-select k p (x ∷ xs) = ground (arith, occurs-select k p xs, eq_iff x k)

-- Distinct ids are the keys of `in_degree` as they stand.
id_keys_distinct :
    (seen : List String) (steps : List StepDefinition)
    → ((k : String) → occurs k seen + occurs k (ids steps) ≤ 1)
    → id_keys seen steps ≡ ids steps
unfolding id_keys occurs
id_keys_distinct seen [] h = refl
id_keys_distinct seen (s ∷ steps) h = ground (
  arith,
  id_keys_distinct (s.id ∷ seen) steps (λ k. omega (arith, h k)),
  h s.id,
  eq_refl s.id,
  occurs_of_mem s.id seen,
)

module _ (steps : List StepDefinition) (distinct : Distinct (ids steps)) where
  occurs-initial_queue :
      (k : String)
      → occurs k (initial_queue steps)
        ≡ (if is_zero (initial_degree (graph steps) k) then occurs k (ids steps) else 0)
  unfolding initial_queue
  occurs-initial_queue k =
      rw (id_keys_distinct [] steps (λ k. unfold occurs in omega (arith, distinct k)))
        (occurs-select k (λ k. is_zero (initial_degree (graph steps) k)) (ids steps))

  pub Inv-initial : Inv steps (graph steps) (initial_degree (graph steps)) (initial_queue steps) []
  unfolding occurs
  Inv-initial = record {
    tracks = λ k h. unfold lower hits initial_degree in refl;
    once = λ k. ground (arith, occurs-initial_queue k, distinct k);
    free = λ k h. ground (arith, occurs-initial_queue k);
    queued = λ k h z. ground (arith, occurs-initial_queue k);
  }

-- The loop ended with the result `r` and an empty queue.
pub record Ended (steps : List StepDefinition) (g : String → List String) (r : List String)
    : Type 0 where
  pub degree : String → ℤ
  pub queue : List String
  pub inv : Inv steps g degree queue r
  pub empty : (k : String) → occurs k queue ≡ 0
  pub placed : IsPlaced g [] r

module _ (index : String → ℕ) (g : String → List String) (steps : List StepDefinition) (fuel : ℕ)
    (degree : String → ℤ) (queue done : List String) where
  kahn-nil : sort_by index queue ≡ [] → kahn index g steps (suc fuel) degree queue done ≡ some done
  unfolding kahn
  kahn-nil s = rw (s, kahn)

  kahn-cons :
      (c : String) (rest : List String)
      → sort_by index queue ≡ c ∷ rest
      → kahn index g steps (suc fuel) degree queue done
        ≡ kahn index g steps fuel
            (relax g c steps degree rest).0
            (relax g c steps degree rest).1
            (done ++ c ∷ [])
  unfolding kahn
  kahn-cons c rest s = rw (s, kahn)

kahn-zero :
    (index : String → ℕ) (g : String → List String) (steps : List StepDefinition)
    (degree : String → ℤ) (queue done : List String) {r : List String}
    → kahn index g steps zero degree queue done ≢ some r
unfolding kahn
kahn-zero index g steps degree queue done e = cc

module _ (steps : List StepDefinition) (g : String → List String) (distinct : Distinct (ids steps))
    (index : String → ℕ) where
  pub kahn_ends :
      (fuel : ℕ) (degree : String → ℤ) (queue done : List String) {r : List String}
      → Inv steps g degree queue done
      → IsPlaced g [] done
      → kahn index g steps fuel degree queue done ≡ some r
      → Ended steps g r
  kahn_ends zero degree queue done inv p e = absurd (kahn-zero index g steps degree queue done e)
  kahn_ends (suc fuel) degree queue done {r} inv p e = elim (List-cases (sort_by index queue)) [
    | inl s ↦
        let same : done ≡ r = cc (kahn-nil index g steps fuel degree queue done s) in
        rw (← same) (record {
          degree = degree;
          queue = queue;
          inv = inv;
          empty = λ k. sym (occurs-sort_by k index queue) ∙ rw s (unfold occurs in refl);
          placed = p;
        })
    | inr (c, rest, s) ↦
        kahn_ends fuel (relax g c steps degree rest).0 (relax g c steps degree rest).1
          (done ++ c ∷ []) (Inv-round inv distinct index c rest s)
          (IsPlaced-snoc g [] done c p
            (λ d m. omega (arith, deps_done inv c d (occurs_popped inv distinct index c rest s) m)))
          (sym (kahn-cons index g steps fuel degree queue done c rest s) ∙ e)
  ]

pub run_loop-Ended :
    (steps : List StepDefinition) {r : List String}
    → Distinct (ids steps)
    → run_loop steps ≡ some r
    → Ended steps (graph steps) r
unfolding run_loop
run_loop-Ended steps distinct =
    kahn_ends steps (graph steps) distinct (step_index steps) (suc (length steps))
      (initial_degree (graph steps)) (initial_queue steps) [] (Inv-initial steps distinct) tt

finish_inv :
    (steps : List StepDefinition) (o : Option (List String)) {r : List String}
    → finish steps o ≡ order r
    → (o ≡ some r) × (length r ≡ length steps)
unfolding finish
finish_inv steps none e = cc
finish_inv steps (some q) e = ground arith

-- A returned order comes from a loop that ended with as many ids as there are steps.
order-Ended :
    (steps : List StepDefinition) {r : List String}
    → Distinct (ids steps)
    → order_of steps ≡ order r
    → Ended steps (graph steps) r × (length r ≡ length steps)
unfolding order_of
order-Ended steps {r} distinct e =
    let (k, full) = finish_inv steps (run_loop steps) e in (run_loop-Ended steps distinct k, full)

pub length-ids : (steps : List StepDefinition) → length (ids steps) ≡ length steps
length-ids [] = refl
length-ids (s ∷ steps) = ap suc (length-ids steps)

pub hits_of_members :
    (xs ys : List String)
    → ((k : String) → 0 < occurs k xs → 0 < occurs k ys)
    → hits xs ys ≡ length xs
unfolding hits occurs
hits_of_members [] ys h = refl
hits_of_members (x ∷ xs) ys h =
    rw (mem_of_occurs x ys (h x (rw (eq_refl x) (omega arith))))
      (omega (arith, hits_of_members xs ys (λ k p. h k (omega arith))))

module _ (steps : List StepDefinition) (r : List String) (distinct : Distinct (ids steps))
    (e : order_of steps ≡ order r) where
  abbrev ended : Ended steps (graph steps) r
  ended = (order-Ended steps distinct e).0

  mem-ids : (k : String) → 0 < occurs k r → 0 < occurs k (ids steps)
  mem-ids k h = (ended.inv.free k (omega (arith, ended.empty k))).0

  mem-order : (k : String) → 0 < occurs k (ids steps) → 0 < occurs k r
  mem-order k h =
      occurs_of_full k r (ids steps) (Distinct-done ended.inv)
        (hits_of_members r (ids steps) mem-ids
          ∙ (order-Ended steps distinct e).1
          ∙ sym (length-ids steps))
        h

  pub occurs-order : (k : String) → occurs k r ≡ occurs k (ids steps)
  occurs-order k = grind (arith, distinct k, Distinct-done ended.inv k, mem-ids k, mem-order k)

  pub order-IsPlaced : IsPlaced (graph steps) [] r
  order-IsPlaced = ended.placed

  pub order-deps :
      (k : String)
      → 0 < occurs k (ids steps)
      → Distinct (graph steps k)
        × ((d : String) → 0 < occurs d (graph steps k) → 0 < occurs d (ids steps))
  order-deps k h =
      let full = all_hit ended.inv k (omega (arith, mem-order k h)) in
      (
        Distinct-of_full r (graph steps k) (Distinct-done ended.inv) full,
        λ d m. mem-ids d (occurs_of_full d r (graph steps k) (Distinct-done ended.inv) full m),
      )

-- For a workflow with distinct step ids whose execution order is computed, the order holds exactly
-- the ids of the steps, each once, and every id stands behind all ids that it depends on.
pub get_execution_order_topological :
    (w : WorkflowDefinition) (r : List String)
    → Distinct (ids w.steps)
    → get_execution_order w ≡ order r
    → ((k : String) → occurs k r ≡ occurs k (ids w.steps)) × IsPlaced (graph w.steps) [] r
unfolding get_execution_order
get_execution_order_topological w r distinct e =
    (occurs-order w.steps r distinct e, order-IsPlaced w.steps r distinct e)
