-- ===== src/Engine/Recorded.antt =====
-- The results of the steps before one, and what one more result changes.
use ploston_core.Prelude.{
  ◌<◌, String, ◌≡◌, ap, ◌∙◌, inl, inr, Bool, true, false, ◌||◌, Option, none, some, List, [], ◌∷◌,
  arith, ◌==◌, eq_iff, Bool-cases, if◌then◌else◌,
}
use ploston_core.Prelude.Assoc.{Assoc, lookup, lookup-insert}
use ploston_core.Prelude.Count.{occurs}
use ploston_core.Errors.{Exc}
use ploston_core.Engine.{
  SkipReason, StepResult, is_completed, is_failed, is_skipped, ExecutionContext, add_step_result,
  find_failed,
}
use ploston_core.Engine.Attempts.{IsSettled}

-- The result is that of a step which was not executed, for a dependency that did not complete.
abbrev pub is_cascade : Option SkipReason → Bool
is_cascade (some (SkipReason.dependency root)) = true
is_cascade _ = false

-- The step `d` has a result, and it is completed.
abbrev pub IsDone : String → ExecutionContext → Type 0
IsDone d c = (q : StepResult) × (lookup d c.step_results ≡ some q) × (is_completed q.status ≡ true)

-- Where a step was executed, its dependencies by `g` have completed.
abbrev pub IsSafe : (String → List String) → ExecutionContext → Type 0
IsSafe g c =
    (k : String) (r : StepResult)
    → lookup k c.step_results ≡ some r
    → is_cascade r.skip_reason ≡ false
    → (d : String) → 0 < occurs d (g k)
    → IsDone d c

-- The results are those of the steps of `seen`.
pub record IsRecorded (seen : List String) (c : ExecutionContext) : Type 0 where
  pub there :
      (d : String)
      → 0 < occurs d seen
      → (r : StepResult) × (lookup d c.step_results ≡ some r) × IsSettled r.status
  pub fresh : (d : String) → occurs d seen ≡ 0 → lookup d c.step_results ≡ none

pub find_failed-none :
    (deps : List String) (results : Assoc StepResult) (d : String) (r : StepResult)
    → find_failed deps results ≡ none
    → 0 < occurs d deps
    → lookup d results ≡ some r
    → (is_failed r.status || is_skipped r.status) ≡ false
unfolding find_failed occurs
find_failed-none [] results d r h m e = absurd (omega arith)
find_failed-none (x ∷ deps) results d r h m e =
    ground (arith, find_failed-none deps results d r, eq_iff x d)

module _ (show : Exc → String) (g : String → List String) (seen : List String)
    (c : ExecutionContext) (r : StepResult) (unseen : occurs r.step_id seen ≡ 0) where
  abbrev pub added : ExecutionContext
  added = add_step_result show r c

  lookup-added :
      (d : String)
      → lookup d added.step_results ≡ (if r.step_id == d then some r else lookup d c.step_results)
  unfolding add_step_result
  lookup-added d = lookup-insert r.step_id d r c.step_results

  pub added-IsRecorded :
      IsSettled r.status → IsRecorded seen c → IsRecorded (r.step_id ∷ seen) added
  unfolding occurs
  added-IsRecorded settled rec = record {
    there = λ d h. elim (Bool-cases (r.step_id == d)) [
      | inl same ↦ (
        r,
        lookup-added d ∙ ap (λ t. if t then some r else lookup d c.step_results) same,
        settled,
      )
      | inr other ↦
          let (q, e, s) = rec.there d (ground arith) in (q, ground (arith, lookup-added d), s)
    ];
    fresh = λ d h. ground (arith, lookup-added d, rec.fresh d);
  }

  added-IsDone : IsRecorded seen c → (d : String) → IsDone d c → IsDone d added
  added-IsDone rec d (q, e, done) =
      (q, ground (arith, lookup-added d, rec.fresh r.step_id, eq_iff r.step_id d), done)

  pub added-IsSafe :
      IsRecorded seen c
      → IsSafe g c
      → (is_cascade r.skip_reason ≡ false → (d : String) → 0 < occurs d (g r.step_id) → IsDone d c)
      → IsSafe g added
  added-IsSafe rec safe own k q e run d m = elim (Bool-cases (r.step_id == k)) [
    | inl same ↦
        let k_is : r.step_id ≡ k = (eq_iff r.step_id k).0 same in
        let q_is : r ≡ q = ground (arith, lookup-added k) in
        added-IsDone rec d (own (rw q_is run) d (rw k_is m))
    | inr other ↦ added-IsDone rec d (safe k q (ground (arith, lookup-added k)) run d m)
  ]
