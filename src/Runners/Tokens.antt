-- ===== src/Runners/Tokens.antt =====
-- Tokens of the `RunnerRegistry`: a new runner's token finds it, a deleted runner's finds nothing.
use mathlib.Core.Path.{Path, subst}
use ploston_core.Prelude.{
  ℕ, String, ◌≡◌, refl, ap, ◌∙◌, ◌≢◌, true, Option, none, some, arith, ◌==◌, eq_iff, eq_refl,
  truthy, or_else, if◌then◌else◌,
}
use ploston_core.Prelude.Assoc.{Assoc, lookup, erase, lookup-insert, lookup-erase}
use ploston_core.Errors.{Result}
use ploston_core.Value.{Value}
use ploston_core.Runners.{
  Runner, Registry, new_runner, add_runner, create, get_indexed, get_by_name, get_by_token, delete,
}
use ploston_core.Runners.Consistent.{IsConsistent, delete_runner-removes}

-- What `get_by_token` and `get_by_name` find.
pub get_indexed-some :
    (o : Option String) (s : Registry) (r : Runner)
    → get_indexed o s ≡ some r
    → (i : String) × (o ≡ some i) × (lookup i s.runners ≡ some r)
unfolding get_indexed truthy
get_indexed-some none s r h = cc
get_indexed-some (some i) s r h = (i, refl, ground arith)

pub get_indexed-lookup :
    (i : String) (s : Registry)
    → lookup "" s.runners ≡ none
    → get_indexed (some i) s ≡ lookup i s.runners
unfolding get_indexed truthy
get_indexed-lookup i s h = ground (arith, eq_iff i "")

module _ (hash_token : String → String) (s : Registry) (inv : IsConsistent s) where
  -- The runner of a token stands at its id, and its token hash is the token's.
  get_by_token-own :
      (token : String) (r : Runner)
      → get_by_token hash_token token s ≡ some r
      → (lookup r.id s.runners ≡ some r) × (r.token_hash ≡ hash_token token)
  unfolding get_by_token
  get_by_token-own token r h =
      let (i, at, there) = get_indexed-some (lookup (hash_token token) s.token_to_id) s r h in
      let (q, also, e) = inv.authorised (hash_token token) i at in
      let (a, b, c) = inv.own i r there in (ap (λ x. lookup x s.runners) a ∙ there, ground arith)

  abbrev removed : Runner → Registry
  removed r = record s {
    runners = erase r.id s.runners;
    name_to_id = erase r.name s.name_to_id;
    token_to_id = erase r.token_hash s.token_to_id;
  }

  removed-at :
      (r : Runner) (t : String) (o : Option String)
      → lookup r.id s.runners ≡ some r
      → lookup t s.token_to_id ≡ o
      → get_indexed (lookup t (erase r.token_hash s.token_to_id)) (removed r)
        ≡ (if r.token_hash == t then none else get_indexed o s)
  unfolding get_indexed truthy
  removed-at r t none there e = ground (arith, lookup-erase r.token_hash t s.token_to_id)
  removed-at r t (some j) there e =
      let proper : lookup "" (removed r).runners ≡ none =
        ground (arith, lookup-erase r.id "" s.runners, inv.proper) in
      let (q, at, its) = inv.authorised t j e in
      let gone : lookup j (removed r).runners ≡ (if r.id == j then none else lookup j s.runners) =
        lookup-erase r.id j s.runners in
      ground (
        arith,
        lookup-erase r.token_hash t s.token_to_id,
        get_indexed-lookup j (removed r) proper,
        get_indexed-lookup j s inv.proper,
        gone,
        eq_iff r.id j,
        eq_iff r.token_hash t,
      )

  delete-removes :
      (r : Runner) → lookup r.id s.runners ≡ some r → delete r.id s ≡ (Result.ok true, removed r)
  unfolding delete
  delete-removes r h = rw (delete, h) (delete_runner-removes s inv r.id r h)

-- The registry after a runner was deleted.
pub record IsRevoked (hash_token : String → String) (token : String) (r : Runner) (s : Registry)
    : Type 0 where
  pub deleted : (delete r.id s).0 ≡ Result.ok true
  pub tokens :
      (t : String)
      → get_by_token hash_token t (delete r.id s).1
        ≡ (if hash_token token == hash_token t then none else get_by_token hash_token t s)

-- Where a token finds a runner in a consistent registry, deleting the runner succeeds without a
-- KeyError, after it the token finds nothing, and every token with another hash finds what it found.
pub delete-IsRevoked :
    (hash_token : String → String) (s : Registry) (token : String) (r : Runner)
    → IsConsistent s
    → get_by_token hash_token token s ≡ some r
    → IsRevoked hash_token token r s
unfolding get_by_token
delete-IsRevoked hash_token s token r inv h =
    let (there, own) = get_by_token-own hash_token s inv token r h in
    let gone = delete-removes hash_token s inv r there in
    record {
      deleted = ap (λ o. o.0) gone;
      tokens = λ t.
          ap (λ o. get_by_token hash_token t o.1) gone
          ∙ removed-at hash_token s inv r (hash_token t) (lookup (hash_token t) s.token_to_id) there
              refl
          ∙ ap (λ x. if x == hash_token t then none else get_by_token hash_token t s) own;
    }

-- What a registry holds of a runner that `create` returned.
pub record IsRegistered (hash_token : String → String) (name token : String) (r : Runner)
    (s : Registry) : Type 0 where
  pub by_token : get_by_token hash_token token s ≡ some r
  pub by_name : get_by_name name s ≡ some r
  pub named : r.name ≡ name

add_runner-IsRegistered :
    (hash_token : String → String) (token : String) (r : Runner) (s : Registry)
    → r.id ≢ ""
    → r.token_hash ≡ hash_token token
    → IsRegistered hash_token r.name token r (add_runner r s)
unfolding add_runner get_by_token get_by_name get_indexed truthy
add_runner-IsRegistered hash_token token r s id own = record {
  by_token = ground (
    arith,
    lookup-insert r.token_hash (hash_token token) r.id s.token_to_id,
    lookup-insert r.id r.id r s.runners,
    eq_iff r.id "",
    eq_refl r.id,
    eq_iff r.token_hash (hash_token token),
  );
  by_name = ground (
    arith,
    lookup-insert r.name r.name r.id s.name_to_id,
    lookup-insert r.id r.id r s.runners,
    eq_iff r.id "",
    eq_refl r.id,
    eq_refl r.name,
  );
  named = refl;
}

create_at-IsRegistered :
    (hash_token : String → String) (i t name : String) (mcps : Option (Assoc Value))
    (token : Option String) (now : ℕ) (s : Registry) (r : Runner) (given : String)
    (found : Option String)
    → lookup name s.name_to_id ≡ found
    → i ≢ ""
    → (create hash_token i t name mcps token now s).0 ≡ Result.ok (r, given)
    → IsRegistered hash_token name given r (create hash_token i t name mcps token now s).1
unfolding create
create_at-IsRegistered hash_token i t name mcps token now s r given (some j) e id h = ground arith
create_at-IsRegistered hash_token i t name mcps token now s r given none e id h =
    let q = new_runner hash_token i (or_else token t) name mcps now in
    let made : Path (Result (Runner × String)) (Result.ok (q, or_else token t))
        (Result.ok (r, given)) =
      rw (create, e) at h in
    let same : q ≡ r = cc in
    let kept : or_else token t ≡ given = cc in
    subst
      (λ x. IsRegistered hash_token name given x (create hash_token i t name mcps token now s).1)
      same
      (subst (λ g. IsRegistered hash_token name g q (create hash_token i t name mcps token now s).1)
        kept
        (rw (create, e)
          (unfold new_runner in add_runner-IsRegistered hash_token (or_else token t) q s id refl)))

-- Where `create` returns a runner and a token, with a new id that is not empty, the token and the
-- name find the runner in the registry.
pub create-IsRegistered :
    (hash_token : String → String) (i t name : String) (mcps : Option (Assoc Value))
    (token : Option String) (now : ℕ) (s : Registry) (r : Runner) (given : String)
    → i ≢ ""
    → (create hash_token i t name mcps token now s).0 ≡ Result.ok (r, given)
    → IsRegistered hash_token name given r (create hash_token i t name mcps token now s).1
create-IsRegistered hash_token i t name mcps token now s r given id h =
    create_at-IsRegistered hash_token i t name mcps token now s r given (lookup name s.name_to_id)
      refl id h
