-- ===== src/Runners/Indexed.antt =====
-- The indexes of a runner registry, and what an insertion, a replacement and a removal do to them.
use ploston_core.Prelude.{
  String, ◌≡◌, ◌≢◌, none, some, arith, ◌==◌, eq_iff, eq_refl, if◌then◌else◌, Bool-cases, inl, inr,
}
use ploston_core.Prelude.Assoc.{Assoc, lookup, insert, erase, keys, lookup-insert, lookup-erase}
use ploston_core.Prelude.Count.{Distinct}
use ploston_core.Prelude.Dicts.{insert-Distinct, erase-Distinct}
use ploston_core.Runners.{Runner}

-- Each runner stands at its id, and the two indexes name exactly the runners.
pub record IsIndexed (runners : Assoc Runner) (names tokens : Assoc String) : Type 0 where
  pub distinct : Distinct (keys runners)
  pub proper : lookup "" runners ≡ none
  pub own :
      (i : String) (r : Runner)
      → lookup i runners ≡ some r
      → (r.id ≡ i) × (lookup r.name names ≡ some i) × (lookup r.token_hash tokens ≡ some i)
  pub named :
      (n i : String)
      → lookup n names ≡ some i
      → (r : Runner) × (lookup i runners ≡ some r) × (r.name ≡ n)
  pub authorised :
      (t i : String)
      → lookup t tokens ≡ some i
      → (r : Runner) × (lookup i runners ≡ some r) × (r.token_hash ≡ t)

module _ {runners : Assoc Runner} {names tokens : Assoc String}
    (inv : IsIndexed runners names tokens) where
  -- A new runner with a new id, a new name and a new token.
  pub insert-IsIndexed :
      (r : Runner)
      → r.id ≢ ""
      → lookup r.id runners ≡ none
      → lookup r.name names ≡ none
      → lookup r.token_hash tokens ≡ none
      → IsIndexed
          (insert r.id r runners)
          (insert r.name r.id names)
          (insert r.token_hash r.id tokens)
  insert-IsIndexed r id free_id free_name free_token = record {
    distinct = insert-Distinct r.id r runners inv.distinct;
    proper = ground (arith, lookup-insert r.id "" r runners, eq_iff r.id "", inv.proper);
    own = λ i q h. ground (
      arith,
      lookup-insert r.id i r runners,
      lookup-insert r.name q.name r.id names,
      lookup-insert r.token_hash q.token_hash r.id tokens,
      eq_iff r.id i,
      eq_iff r.name q.name,
      eq_iff r.token_hash q.token_hash,
      inv.own i q,
    );
    named = λ n i h. elim (Bool-cases (r.name == n)) [
      | inl same ↦ (
        r,
        ground (
          arith,
          lookup-insert r.name n r.id names,
          lookup-insert r.id i r runners,
          eq_iff r.name n,
          eq_refl r.id,
        ),
        (eq_iff r.name n).0 same,
      )
      | inr other ↦
          let (q, at, e) = inv.named n i (ground (arith, lookup-insert r.name n r.id names)) in
          (q, ground (arith, lookup-insert r.id i r runners, eq_iff r.id i), e)
    ];
    authorised = λ t i h. elim (Bool-cases (r.token_hash == t)) [
      | inl same ↦ (
        r,
        ground (
          arith,
          lookup-insert r.token_hash t r.id tokens,
          lookup-insert r.id i r runners,
          eq_iff r.token_hash t,
          eq_refl r.id,
        ),
        (eq_iff r.token_hash t).0 same,
      )
      | inr other ↦
          let (q, at, e) =
            inv.authorised t i (ground (arith, lookup-insert r.token_hash t r.id tokens)) in
          (q, ground (arith, lookup-insert r.id i r runners, eq_iff r.id i), e)
    ];
  }

  -- A runner with other fields, but its own id, name and token.
  pub replace-IsIndexed :
      (i : String) (r q : Runner)
      → lookup i runners ≡ some r
      → q.id ≡ r.id
      → q.name ≡ r.name
      → q.token_hash ≡ r.token_hash
      → IsIndexed (insert i q runners) names tokens
  replace-IsIndexed i r q h id name token = record {
    distinct = insert-Distinct i q runners inv.distinct;
    proper = ground (arith, lookup-insert i "" q runners, eq_iff i "", inv.proper);
    own =
        λ j p at. ground (arith, lookup-insert i j q runners, eq_iff i j, inv.own j p, inv.own i r);
    named = λ n j at.
        let (p, there, e) = inv.named n j at in
        (
          if i == j then q else p,
          ground (arith, lookup-insert i j q runners, eq_iff i j),
          ground (arith, eq_iff i j),
        );
    authorised = λ t j at.
        let (p, there, e) = inv.authorised t j at in
        (
          if i == j then q else p,
          ground (arith, lookup-insert i j q runners, eq_iff i j),
          ground (arith, eq_iff i j),
        );
  }

  -- Without a runner, its name and its token.
  pub erase-IsIndexed :
      (i : String) (r : Runner)
      → lookup i runners ≡ some r
      → IsIndexed (erase i runners) (erase r.name names) (erase r.token_hash tokens)
  erase-IsIndexed i r h = record {
    distinct = erase-Distinct i runners inv.distinct;
    proper = ground (arith, lookup-erase i "" runners, inv.proper);
    own = λ j p at. ground (
      arith,
      lookup-erase i j runners,
      lookup-erase r.name p.name names,
      lookup-erase r.token_hash p.token_hash tokens,
      eq_iff i j,
      eq_iff r.name p.name,
      eq_iff r.token_hash p.token_hash,
      inv.own j p,
      inv.own i r,
    );
    named = λ n j at.
        let (p, there, e) = inv.named n j (ground (arith, lookup-erase r.name n names)) in
        (
          p,
          ground (
            arith,
            lookup-erase i j runners,
            lookup-erase r.name n names,
            eq_iff i j,
            eq_iff r.name n,
          ),
          e,
        );
    authorised = λ t j at.
        let (p, there, e) =
          inv.authorised t j (ground (arith, lookup-erase r.token_hash t tokens)) in
        (
          p,
          ground (
            arith,
            lookup-erase i j runners,
            lookup-erase r.token_hash t tokens,
            eq_iff i j,
            eq_iff r.token_hash t,
          ),
          e,
        );
  }
