-- ===== src/Workflow/Order/Invariant.antt =====
-- What the loop of `get_execution_order` keeps when the step ids are distinct.
use ploston_core.Prelude.{
  ℕ, suc, sym, eq_refl, ◌+◌, ◌≤◌, ◌<◌, String, ◌≡◌, ap, ◌∙◌, inl, inr, true, false, ◌&&◌, List, [],
  ◌∷◌, ◌++◌, arith, length, mem, hits, Bool-cases, if◌then◌else◌,
}
use ploston_core.Prelude.Int.{ℤ, pos, pred_ℤ, is_zero}
use ploston_core.Prelude.Count.{
  occurs, Distinct, occurs-append, occurs_of_mem, hits-append, occurs_of_full,
}
use ploston_core.Workflow.{StepDefinition}
use ploston_core.Workflow.Order.{sort_by, relax}
use ploston_core.Workflow.Order.Lowered.{lower, is_zero-lower, is_zero-pred}
use ploston_core.Workflow.Order.Relaxed.{ids, occurs-sort_by, degree-relax, occurs-relax}

-- The state of the loop. `done` is the result so far.
pub record Inv (steps : List StepDefinition) (g : String → List String) (degree : String → ℤ)
    (queue done : List String) : Type 0 where
  -- A step's degree is the number of its dependencies less those that are done.
  pub tracks :
      (k : String)
      → 0 < occurs k (ids steps)
      → degree k ≡ lower (hits done (g k)) (pos (length (g k)))
  pub once : (k : String) → occurs k done + occurs k queue ≤ 1
  pub free :
      (k : String)
      → 0 < occurs k done + occurs k queue
      → (0 < occurs k (ids steps)) × (is_zero (degree k) ≡ true)
  pub queued :
      (k : String)
      → 0 < occurs k (ids steps)
      → is_zero (degree k) ≡ true
      → 0 < occurs k done + occurs k queue

module _ {steps : List StepDefinition} {g : String → List String} {degree : String → ℤ}
    {queue done : List String} (inv : Inv steps g degree queue done) where
  pub Distinct-done : Distinct done
  Distinct-done k = omega (arith, inv.once k)

  -- All dependencies of an id that is queued or done are done.
  pub all_hit : (k : String) → 0 < occurs k done + occurs k queue → hits done (g k) ≡ length (g k)
  all_hit k h =
      is_zero-lower (hits done (g k)) (length (g k))
        (cc (inv.tracks k (inv.free k h).0, (inv.free k h).1))

  pub deps_done :
      (k d : String) → 0 < occurs k done + occurs k queue → 0 < occurs d (g k) → 0 < occurs d done
  deps_done k d h m = occurs_of_full d done (g k) Distinct-done (all_hit k h) m

module _ {steps : List StepDefinition} {g : String → List String} {degree : String → ℤ}
    {queue done : List String} (inv : Inv steps g degree queue done)
    (distinct : Distinct (ids steps)) (index : String → ℕ) (c : String) (rest : List String)
    (sorted : sort_by index queue ≡ c ∷ rest) where
  abbrev degree' : String → ℤ
  degree' = (relax g c steps degree rest).0

  abbrev queue' : List String
  queue' = (relax g c steps degree rest).1

  occurs-queue : (k : String) → occurs k queue ≡ occurs k (c ∷ rest)
  occurs-queue k = sym (occurs-sort_by k index queue) ∙ ap (occurs k) sorted

  occurs-done :
      (k : String) → occurs k (done ++ c ∷ []) + occurs k rest ≡ occurs k done + occurs k queue
  unfolding occurs
  occurs-done k = omega (arith, occurs-append k done (c ∷ []), occurs-queue k)

  pub occurs_popped : 0 < occurs c done + occurs c queue
  unfolding occurs
  occurs_popped = rw occurs-queue (ground (arith, eq_refl c))

  not_done_popped : occurs c done ≡ 0
  unfolding occurs
  not_done_popped = let o = inv.once c in ground (arith, occurs-queue c, eq_refl c)

  -- An id that was free before does not depend on the popped one.
  misses : (k : String) → 0 < occurs k done + occurs k queue → mem c (g k) ≡ false
  misses k h = elim (Bool-cases (mem c (g k))) [
    | inl m ↦ absurd (omega (arith, deps_done inv k c h (occurs_of_mem c (g k) m), not_done_popped))
    | inr n ↦ n
  ]

  abbrev newly : String → ℕ
  newly k = if mem c (g k) && is_zero (pred_ℤ (degree k)) then occurs k (ids steps) else 0

  balance :
      (k : String)
      → occurs k (done ++ c ∷ []) + occurs k queue' ≡ occurs k done + occurs k queue + newly k
  balance k = omega (arith, occurs-done k, occurs-relax g c k steps degree rest (distinct k))

  degree_hit :
      (k : String) → mem c (g k) ≡ true → 0 < occurs k (ids steps) → degree' k ≡ pred_ℤ (degree k)
  unfolding lower
  degree_hit k m h =
      let one : occurs k (ids steps) ≡ 1 = omega (arith, distinct k) in
      degree-relax g c k steps degree rest ∙ rw (m, one)

  degree_miss : (k : String) → mem c (g k) ≡ false → degree' k ≡ degree k
  unfolding lower
  degree_miss k n = degree-relax g c k steps degree rest ∙ rw n

  hits_done :
      (k : String)
      → hits (done ++ c ∷ []) (g k)
        ≡ (if mem c (g k) then suc (hits done (g k)) else hits done (g k))
  unfolding hits
  hits_done k = ground (arith, hits-append done (c ∷ []) (g k))

  tracks' :
      (k : String)
      → 0 < occurs k (ids steps)
      → degree' k ≡ lower (hits (done ++ c ∷ []) (g k)) (pos (length (g k)))
  unfolding lower
  tracks' k h = elim (Bool-cases (mem c (g k))) [
    | inl m ↦ rw (hits_done k, m) (degree_hit k m h ∙ ap pred_ℤ (inv.tracks k h))
    | inr n ↦ rw (hits_done k, n) (degree_miss k n ∙ inv.tracks k h)
  ]

  -- What is queued now was neither queued nor done before.
  newly_fresh :
      (k : String) → is_zero (pred_ℤ (degree k)) ≡ true → occurs k done + occurs k queue ≡ 0
  newly_fresh k z = grind (arith, inv.free k, is_zero-pred (degree k))

  once' : (k : String) → occurs k (done ++ c ∷ []) + occurs k queue' ≤ 1
  once' k = ground (arith, balance k, inv.once k, distinct k, newly_fresh k)

  free' :
      (k : String)
      → 0 < occurs k (done ++ c ∷ []) + occurs k queue'
      → (0 < occurs k (ids steps)) × (is_zero (degree' k) ≡ true)
  free' k h = ground (arith, balance k, inv.free k, misses k, degree_miss k, degree_hit k)

  queued' :
      (k : String)
      → 0 < occurs k (ids steps)
      → is_zero (degree' k) ≡ true
      → 0 < occurs k (done ++ c ∷ []) + occurs k queue'
  queued' k h z = ground (arith, balance k, inv.queued k, degree_miss k, degree_hit k)

  pub Inv-round : Inv steps g degree' queue' (done ++ c ∷ [])
  Inv-round = record { tracks = tracks'; once = once'; free = free'; queued = queued' }
