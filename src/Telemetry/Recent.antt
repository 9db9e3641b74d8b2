-- ===== src/Telemetry/Recent.antt =====
-- The memory store against a log without a limit: it holds the end of the log.
use ploston_core.Prelude.{
  ℕ, suc, ◌+◌, ◌≤◌, String, ◌≡◌, refl, sym, ap, ◌∙◌, Bool, true, false, some, List, [], ◌∷◌, ◌++◌,
  ◌==◌, arith, eq_iff, eq_refl, ltb, length, length-append, if◌then◌else◌, Bool-cases, inl, inr,
}
use ploston_core.Prelude.Assoc.{Assoc, lookup, erase, keys}
use ploston_core.Prelude.Count.{occurs, Distinct, Distinct-tail, not_occurs_head}
use ploston_core.Prelude.Dicts.{occurs-keys-erase}
use ploston_core.Telemetry.{ExecutionRecord, Store, evict, put_last, save_execution}

over_lem : {m n : ℕ} → ltb m (suc n) ≡ true → m ≤ n
over_lem h = ground arith

module _ {V : Type 0} where
  pub length-evict-le : (m : ℕ) (d : Assoc V) → length (evict m d) ≤ m
  unfolding evict
  length-evict-le m [] = omega arith
  length-evict-le m (e ∷ d) = ground (arith, length-evict-le m d)

  evict-fits : (m : ℕ) (d : Assoc V) → length d ≤ m → evict m d ≡ d
  unfolding evict
  evict-fits m [] h = refl
  evict-fits m (e ∷ d) h = ground arith

  evict-drops : (m : ℕ) (e : String × V) (d : Assoc V) → m ≤ length d → evict m (e ∷ d) ≡ evict m d
  unfolding evict
  evict-drops m e d h = ground arith

  length-erase-absent :
      (k : String) (d : Assoc V) → occurs k (keys d) ≡ 0 → length (erase k d) ≡ length d
  unfolding erase occurs
  length-erase-absent k [] h = refl
  length-erase-absent k ((i, w) ∷ d) h = ground (arith, length-erase-absent k d)

  -- Without repeated keys, at most one entry is erased.
  length-erase :
      (k : String) (d : Assoc V) → Distinct (keys d) → length d ≤ suc (length (erase k d))
  unfolding erase
  length-erase k [] h = omega arith
  length-erase k ((i, w) ∷ d) h = ground (
    arith,
    length-erase k d (Distinct-tail i (keys d) h),
    length-erase-absent k d,
    not_occurs_head i (keys d) h,
    eq_iff i k,
  )

  length-put_last :
      (k : String) (v : V) (d : Assoc V) → length (put_last k v d) ≡ suc (length (erase k d))
  unfolding put_last
  length-put_last k v d = omega (arith, length-append (erase k d) ((k, v) ∷ []))

  put_last-cons :
      (k : String) (v : V) (i : String) (w : V) (d : Assoc V)
      → put_last k v ((i, w) ∷ d) ≡ (if i == k then put_last k v d else (i, w) ∷ put_last k v d)
  unfolding put_last erase
  put_last-cons k v i w d = ground arith

  evict-drops_if :
      (m : ℕ) (b : Bool) (e : String × V) (d : Assoc V)
      → m ≤ length d
      → evict m d ≡ evict m (if b then d else e ∷ d)
  evict-drops_if m true e d h = refl
  evict-drops_if m false e d h = sym (evict-drops m e d h)

  -- A save to the end of a dict is the end of a save to the dict.
  pub evict-put_last :
      (m : ℕ) (k : String) (v : V) (d : Assoc V)
      → Distinct (keys d)
      → evict m (put_last k v (evict m d)) ≡ evict m (put_last k v d)
  evict-put_last m k v [] h = ap (λ x. evict m (put_last k v x)) (evict-fits m [] (omega arith))
  evict-put_last m k v ((i, w) ∷ d) h = elim (Bool-cases (ltb m (suc (length d)))) [
    | inr fits ↦ ap (λ x. evict m (put_last k v x)) (evict-fits m ((i, w) ∷ d) (ground arith))
    | inl over ↦
        ap (λ x. evict m (put_last k v x)) (evict-drops m (i, w) d (ground arith))
        ∙ evict-put_last m k v d (Distinct-tail i (keys d) h)
        ∙ evict-drops_if m (i == k) (i, w) (put_last k v d)
            (omega (
              arith,
              length-put_last k v d,
              length-erase k d (Distinct-tail i (keys d) h),
              over_lem over,
            ))
        ∙ ap (evict m) (sym (put_last-cons k v i w d))
  ]

  occurs-keys-snoc :
      (j k : String) (v : V) (d : Assoc V)
      → occurs j (keys (d ++ (k, v) ∷ [])) ≡ occurs j (keys d) + (if k == j then 1 else 0)
  unfolding occurs
  occurs-keys-snoc j k v [] = ground arith
  occurs-keys-snoc j k v ((i, w) ∷ d) = ground (arith, occurs-keys-snoc j k v d)

  pub put_last-Distinct :
      (k : String) (v : V) (d : Assoc V) → Distinct (keys d) → Distinct (keys (put_last k v d))
  unfolding put_last
  put_last-Distinct k v d h j =
      ground (arith, occurs-keys-snoc j k v (erase k d), occurs-keys-erase j k d, h j)

  pub lookup-put_last : (k : String) (v : V) (d : Assoc V) → lookup k (put_last k v d) ≡ some v
  unfolding put_last lookup erase
  lookup-put_last k v [] = ground (arith, eq_refl k)
  lookup-put_last k v ((i, w) ∷ d) = ground (arith, lookup-put_last k v d)

-- All saves, without a limit: each record at the place of its last save.
unfoldable pub log_from : Assoc ExecutionRecord → List ExecutionRecord → Assoc ExecutionRecord
log_from d [] = d
log_from d (r ∷ rs) = log_from (put_last r.execution_id r d) rs

unfoldable pub save_all : List ExecutionRecord → Store → Store
save_all [] s = s
save_all (r ∷ rs) s = save_all rs (save_execution r s)

-- The store holds the end of the log, and no more than its limit.
pub record IsRecent (m : ℕ) (rs : List ExecutionRecord) (s : Store) : Type 0 where
  pub end_of_log : s.records ≡ evict m (log_from [] rs)
  pub within : length s.records ≤ m
