-- ===== src/Runners/Tools.antt =====
-- `get_runner_for_tool` and `has_tool` of the `RunnerRegistry` agree.
use ploston_core.Prelude.{
  String, ◌≡◌, refl, sym, ap, ◌∙◌, Bool, true, ◌&&◌, Option, none, some, List, [], ◌∷◌, arith,
  is_some, select,
}
use ploston_core.Prelude.Assoc.{lookup, values}
use ploston_core.Prelude.Dicts.{first, first-values, first-passes, lookup-first}
use ploston_core.Runners.{Runner, Registry, is_connected, get_indexed, get_by_name, list_connected}
use ploston_core.Runners.Consistent.{IsConsistent}
use ploston_core.Runners.Tokens.{get_indexed-some, get_indexed-lookup}
use ploston_core.Runners.Names.{
  qualified, offers, stripped, serves, serving, has_tool, runner_for, get_runner_for_tool,
}

-- The first of the selected members is the first that passes both tests.
first-select :
    {A : Type 0} (p q : A → Bool) (xs : List A) → first p (select q xs) ≡ first (λ x. q x && p x) xs
unfolding first select
first-select p q [] = refl
first-select p q (x ∷ xs) = ground (arith, first-select p q xs)

module _ (s : Registry) (inv : IsConsistent s) where
  -- A runner of a consistent registry is found by its name.
  get_by_name-own :
      (i : String) (r : Runner) → lookup i s.runners ≡ some r → get_by_name r.name s ≡ some r
  unfolding get_by_name
  get_by_name-own i r h =
      let (a, b, c) = inv.own i r h in
      ap (λ o. get_indexed o s) b ∙ get_indexed-lookup i s inv.proper ∙ h

  -- The runner that a name finds has the name.
  get_by_name-named : (name : String) (r : Runner) → get_by_name name s ≡ some r → r.name ≡ name
  unfolding get_by_name
  get_by_name-named name r h =
      let (i, at, there) = get_indexed-some (lookup name s.name_to_id) s r h in
      let (q, also, e) = inv.named name i at in ground arith

  serving-some :
      (tool : String) (o : Option Runner) (r : Runner)
      → serving tool o ≡ some r
      → (o ≡ some r) × (serves tool (some r) ≡ true)
  unfolding serving serves
  serving-some tool none r h = cc
  serving-some tool (some q) r h = ground arith

  serves-live : (tool : String) (r : Runner) → serves tool (some r) ≡ true → is_connected r ≡ true
  unfolding serves
  serves-live tool r h = ground arith

  runner_for-serves :
      (at : Option (String × String)) (name : String) (r : Runner)
      → runner_for at name s ≡ some r
      → (serves (stripped at name) (get_by_name r.name s) ≡ true)
        × (serves (stripped at name) (some r) ≡ true)
  unfolding runner_for stripped list_connected serves
  runner_for-serves none name r h =
      let both : Runner → Bool = λ x. is_connected x && offers name x in
      let found : first both (values s.runners) ≡ some r =
        sym (first-select (offers name) is_connected (values s.runners)) ∙ h in
      let good : both r ≡ true = first-passes both (values s.runners) r found in
      let (i, at) = first-values both s.runners r inv.distinct found in
      (ap (serves name) (get_by_name-own i r at) ∙ good, good)
  runner_for-serves (some (runner, tool)) name r h =
      let (found, good) = serving-some tool (get_by_name runner s) r h in
      let named : get_by_name r.name s ≡ some r =
        ap (λ n. get_by_name n s) (get_by_name-named runner r found) ∙ found in
      (ap (serves tool) named ∙ good, good)

  runner_for-named :
      (at : Option (String × String)) (name : String) (r : Runner)
      → runner_for at name s ≡ some r
      → (runner tool : String) → at ≡ some (runner, tool)
      → r.name ≡ runner
  unfolding runner_for
  runner_for-named none name r h runner tool e = cc
  runner_for-named (some (n, t)) name r h runner tool e =
      get_by_name-named n r (serving-some t (get_by_name n s) r h).0 ∙ ground arith

  serves-found :
      (tool : String) (o : Option Runner)
      → serves tool o ≡ true
      → (r : Runner) × (o ≡ some r) × (is_connected r && offers tool r ≡ true)
  unfolding serves
  serves-found tool none h = cc
  serves-found tool (some r) h = (r, refl, h)

  serving-there :
      (tool : String) (o : Option Runner) → serves tool o ≡ true → is_some (serving tool o) ≡ true
  unfolding serves serving
  serving-there tool none h = cc
  serving-there tool (some r) h = ground arith

  runner_for-there :
      (at : Option (String × String)) (name n : String)
      → serves (stripped at name) (get_by_name n s) ≡ true
      → ((runner tool : String) → at ≡ some (runner, tool) → n ≡ runner)
      → is_some (runner_for at name s) ≡ true
  unfolding runner_for stripped list_connected get_by_name
  runner_for-there none name n h own =
      let both : Runner → Bool = λ x. is_connected x && offers name x in
      let (r, e, good) = serves-found name (get_by_name n s) h in
      let (i, a, there) = get_indexed-some (lookup n s.name_to_id) s r e in
      ap is_some (first-select (offers name) is_connected (values s.runners))
      ∙ lookup-first both i s.runners r there good
  runner_for-there (some (runner, tool)) name n h own =
      serving-there tool (get_by_name runner s)
        (ap (λ x. serves tool (get_by_name x s)) (sym (own runner tool refl)) ∙ h)

-- A runner that may serve a tool name.
pub record IsRouted (name : String) (s : Registry) (r : Runner) : Type 0 where
  pub has : has_tool r.name name s ≡ true
  pub live : is_connected r ≡ true
  pub own : (runner tool : String) → qualified name ≡ some (runner, tool) → r.name ≡ runner

-- In a consistent registry, the runner that `get_runner_for_tool` returns is connected, `has_tool`
-- says that it has the tool, and for a name `runner__mcp__tool` it is the runner of that name.
pub get_runner_for_tool-IsRouted :
    (name : String) (s : Registry) (r : Runner)
    → IsConsistent s
    → get_runner_for_tool name s ≡ some r
    → IsRouted name s r
unfolding get_runner_for_tool has_tool
get_runner_for_tool-IsRouted name s r inv h =
    let (has, good) = runner_for-serves s inv (qualified name) name r h in
    record {
      has = has;
      live = serves-live s inv (stripped (qualified name) name) r good;
      own = runner_for-named s inv (qualified name) name r h;
    }

-- In a consistent registry, where `has_tool` says that a runner has a tool, and the tool's name is
-- not qualified with another runner's name, `get_runner_for_tool` returns a runner.
pub get_runner_for_tool-has_tool :
    (name runner : String) (s : Registry)
    → IsConsistent s
    → has_tool runner name s ≡ true
    → ((owner tool : String) → qualified name ≡ some (owner, tool) → runner ≡ owner)
    → is_some (get_runner_for_tool name s) ≡ true
unfolding get_runner_for_tool has_tool
get_runner_for_tool-has_tool name runner s inv h own =
    runner_for-there s inv (qualified name) name runner h own
