-- ===== src/Telemetry/Pages.antt =====
-- The pages of `list_executions`.
use ploston_core.Prelude.{
  ℕ, zero, suc, ◌+◌, ◌-◌, ◌*◌, ◌≤◌, ◌≡◌, refl, sym, ap, ◌∙◌, false, List, [], ◌∷◌, ◌++◌, arith,
  nat_eq, length, select,
}
use ploston_core.Prelude.Assoc.{values}
use ploston_core.Telemetry.{
  ExecutionRecord, Store, Query, matches, sort_records, take, drop, page_of, list_executions,
}

module _ {A : Type 0} where
  take-zero : (xs : List A) → take 0 xs ≡ []
  unfolding take
  take-zero [] = refl
  take-zero (x ∷ xs) = refl

  drop-zero : (xs : List A) → drop 0 xs ≡ xs
  unfolding drop
  drop-zero [] = refl
  drop-zero (x ∷ xs) = refl

  take-suc : (n : ℕ) (x : A) (xs : List A) → take (suc n) (x ∷ xs) ≡ x ∷ take n xs
  unfolding take
  take-suc n x xs = ground arith

  drop-suc : (n : ℕ) (x : A) (xs : List A) → drop (suc n) (x ∷ xs) ≡ drop n xs
  unfolding drop
  drop-suc n x xs = ground arith

  take-all : (n : ℕ) (xs : List A) → length xs ≤ n → take n xs ≡ xs
  unfolding take
  take-all n [] h = refl
  take-all n (x ∷ xs) h = ground (arith, take-all (n - 1) xs (omega arith))

  take-add : (a b : ℕ) (xs : List A) → take a xs ++ take b (drop a xs) ≡ take (a + b) xs
  take-add zero b xs = rw (take-zero xs, drop-zero xs) (ap (λ n. take n xs) (omega arith))
  take-add (suc a) b [] = unfold take drop in refl
  take-add (suc a) b (x ∷ xs) =
      rw (take-suc a x xs, drop-suc a x xs)
        (ap (λ l. x ∷ l) (take-add a b xs)
          ∙ sym (take-suc (a + b) x xs)
          ∙ ap (λ n. take n (x ∷ xs)) (omega arith))

  page_of-suc :
      (k size : ℕ) (xs : List A) → page_of (suc k) size xs ≡ take size (drop (k * size) xs)
  unfolding page_of
  page_of-suc k size xs =
      let less : suc k - 1 ≡ k = omega arith in
      let positive : nat_eq (suc k) 0 ≡ false = ground arith in rw (page_of, positive, less) refl

-- The pages from the first to the `k`th, one after the other.
unfoldable pub pages : Query → ℕ → ℕ → Store → List ExecutionRecord
pages q size zero s = []
pages q size (suc k) s = pages q size k s ++ (list_executions q (suc k) size s).0

abbrev pub filtered : Query → Store → List ExecutionRecord
filtered q s = sort_records (select (matches q) (values s.records))

pages-take :
    (q : Query) (size k : ℕ) (s : Store) → pages q size k s ≡ take (k * size) (filtered q s)
unfolding pages list_executions
pages-take q size zero s =
    sym (ap (λ n. take n (filtered q s)) (omega arith) ∙ take-zero (filtered q s))
pages-take q size (suc k) s =
    ap (λ l. l ++ page_of (suc k) size (filtered q s)) (pages-take q size k s)
    ∙ ap (λ l. take (k * size) (filtered q s) ++ l) (page_of-suc k size (filtered q s))
    ∙ take-add (k * size) size (filtered q s)
    ∙ ap (λ n. take n (filtered q s)) (omega arith)

-- The first `k` pages of `list_executions`, where they have room for the total that it returns, are
-- together all records that match the query, sorted, each record once.
pub list_executions-pages :
    (q : Query) (size k : ℕ) (s : Store)
    → (list_executions q k size s).1 ≤ k * size
    → pages q size k s ≡ filtered q s
unfolding list_executions
list_executions-pages q size k s h = pages-take q size k s ∙ take-all (k * size) (filtered q s) h
