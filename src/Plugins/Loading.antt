-- ===== src/Plugins/Loading.antt =====
-- `load_plugins` of src/ploston_core/plugins/registry.py: the plugins that it registers.
use mathlib.Core.List.Perm
use mathlib.Core.List.{Perm}
use mathlib.Core.List.{append-nil, append_assoc}
use mathlib.Core.Path.{subst}
use ploston_core.Prelude.{
  ℕ, ◌≤◌, ◌≡◌, refl, sym, ◌∙◌, String, true, false, Option, none, some, List, [], ◌∷◌, ◌++◌, arith,
  leb, nat_eq, select, Bool-cases, inl, inr,
}
use ploston_core.Errors.{Exc, Result, ok, err}
use ploston_core.Plugins.{
  Plugin, PluginDefinition, LoadResult, load_loop, place_plugin, sort_plugins, load_plugins,
  override,
}

-- The priorities do not decrease from the front of the list to its end.
abbrev pub IsSorted : List Plugin → Type 0
IsSorted [] = Unit
IsSorted (p ∷ []) = Unit
IsSorted (p ∷ q ∷ ps) = (p.priority ≤ q.priority) × IsSorted (q ∷ ps)

place_plugin-IsSorted : (p : Plugin) (ps : List Plugin) → IsSorted ps → IsSorted (place_plugin p ps)
unfolding place_plugin
place_plugin-IsSorted p [] s = tt
place_plugin-IsSorted p (q ∷ []) s = ground arith
place_plugin-IsSorted p (q ∷ r ∷ ps) s = ground (arith, place_plugin-IsSorted p (r ∷ ps))

sort_plugins-IsSorted : (ps : List Plugin) → IsSorted (sort_plugins ps)
unfolding sort_plugins
sort_plugins-IsSorted [] = tt
sort_plugins-IsSorted (p ∷ ps) =
    place_plugin-IsSorted p (sort_plugins ps) (sort_plugins-IsSorted ps)

place_plugin-Perm : (p : Plugin) (ps : List Plugin) → Perm (place_plugin p ps) (p ∷ ps)
unfolding place_plugin
place_plugin-Perm p [] = Perm.refl (p ∷ [])
place_plugin-Perm p (q ∷ ps) = elim (Bool-cases (leb p.priority q.priority)) [
  | inl first ↦ rw (place_plugin, first) (Perm.refl (p ∷ q ∷ ps))
  | inr later ↦
      rw (place_plugin, later)
        (Perm.trans (Perm.cons q (place_plugin-Perm p ps)) (Perm.swap p q ps))
]

sort_plugins-Perm : (ps : List Plugin) → Perm (sort_plugins ps) ps
unfolding sort_plugins
sort_plugins-Perm [] = Perm.refl []
sort_plugins-Perm (p ∷ ps) =
    Perm.trans (place_plugin-Perm p (sort_plugins ps)) (Perm.cons p (sort_plugins-Perm ps))

-- The plugins of one priority, in their order.
abbrev pub at_priority : ℕ → List Plugin → List Plugin
at_priority n = select (λ p. nat_eq p.priority n)

place_plugin-at_priority :
    (n : ℕ) (p : Plugin) (ps : List Plugin)
    → at_priority n (place_plugin p ps) ≡ at_priority n (p ∷ ps)
unfolding place_plugin select
place_plugin-at_priority n p [] = refl
place_plugin-at_priority n p (q ∷ ps) = ground (arith, place_plugin-at_priority n p ps)

sort_plugins-at_priority :
    (n : ℕ) (ps : List Plugin) → at_priority n (sort_plugins ps) ≡ at_priority n ps
unfolding sort_plugins select
sort_plugins-at_priority n [] = refl
sort_plugins-at_priority n (p ∷ ps) =
    place_plugin-at_priority n p (sort_plugins ps) ∙ ground (arith, sort_plugins-at_priority n ps)

-- The plugins that definitions give, and the failures. A disabled one is passed over; the plugin of an
-- enabled one takes the definition's name and priority, and an exception is a failure by its name.
pub data Gives (load : PluginDefinition → Result (Option Plugin))
    : List PluginDefinition → List Plugin → List (String × Exc) → Type 0 where
  nothing : Gives load [] [] []
  disabled :
      {ds : List PluginDefinition} {ps : List Plugin} {fs : List (String × Exc)}
      (d : PluginDefinition)
      → d.enabled ≡ false
      → Gives load ds ps fs
      → Gives load (d ∷ ds) ps fs
  plugin :
      {ds : List PluginDefinition} {ps : List Plugin} {fs : List (String × Exc)}
      (d : PluginDefinition) (p : Plugin)
      → d.enabled ≡ true
      → load d ≡ ok (some p)
      → Gives load ds ps fs
      → Gives load (d ∷ ds) (record p { name = d.name; priority = d.priority } ∷ ps) fs
  no_plugin :
      {ds : List PluginDefinition} {ps : List Plugin} {fs : List (String × Exc)}
      (d : PluginDefinition)
      → d.enabled ≡ true
      → load d ≡ ok none
      → Gives load ds ps fs
      → Gives load (d ∷ ds) ps fs
  failure :
      {ds : List PluginDefinition} {ps : List Plugin} {fs : List (String × Exc)}
      (d : PluginDefinition) (e : Exc)
      → d.enabled ≡ true
      → load d ≡ err e
      → Gives load ds ps fs
      → Gives load (d ∷ ds) ps ((d.name, e) ∷ fs)

-- What the loop adds to a result.
record IsAdded (load : PluginDefinition → Result (Option Plugin)) (ds : List PluginDefinition)
    (before after : LoadResult) : Type 0 where
  plugins : List Plugin
  failures : List (String × Exc)
  gives : Gives load ds plugins failures
  loaded : after.loaded ≡ before.loaded ++ plugins
  failed : after.failed ≡ before.failed ++ failures

module _ (load : PluginDefinition → Result (Option Plugin)) where
  -- One round, by what loading the definition gives; `ih` is the rest of the loop.
  round-IsAdded :
      (d : PluginDefinition) (ds : List PluginDefinition) (r : LoadResult)
      (o : Result (Option Plugin))
      → d.enabled ≡ true
      → load d ≡ o
      → ((q : LoadResult) → IsAdded load ds q (load_loop load ds q))
      → IsAdded load (d ∷ ds) r (load_loop load (d ∷ ds) r)
  unfolding load_loop override
  round-IsAdded d ds r (ok (some p)) on e ih =
      let q : LoadResult = record r { loaded = r.loaded ++ override d p ∷ [] } in
      let a = ih q in
      let step : load_loop load (d ∷ ds) r ≡ load_loop load ds q = rw (on, e) in
      subst (IsAdded load (d ∷ ds) r) (sym step) (record {
        plugins = override d p ∷ a.plugins;
        failures = a.failures;
        gives = plugin d p on e a.gives;
        loaded = a.loaded ∙ append_assoc r.loaded (override d p ∷ []) a.plugins;
        failed = a.failed;
      })
  round-IsAdded d ds r (ok none) on e ih =
      let a = ih r in
      let step : load_loop load (d ∷ ds) r ≡ load_loop load ds r = rw (on, e) in
      subst (IsAdded load (d ∷ ds) r) (sym step) (record {
        plugins = a.plugins;
        failures = a.failures;
        gives = no_plugin d on e a.gives;
        loaded = a.loaded;
        failed = a.failed;
      })
  round-IsAdded d ds r (err x) on e ih =
      let q : LoadResult = record r { failed = r.failed ++ (d.name, x) ∷ [] } in
      let a = ih q in
      let step : load_loop load (d ∷ ds) r ≡ load_loop load ds q = rw (on, e) in
      subst (IsAdded load (d ∷ ds) r) (sym step) (record {
        plugins = a.plugins;
        failures = (d.name, x) ∷ a.failures;
        gives = failure d x on e a.gives;
        loaded = a.loaded;
        failed = a.failed ∙ append_assoc r.failed ((d.name, x) ∷ []) a.failures;
      })

  load_loop-IsAdded :
      (ds : List PluginDefinition) (r : LoadResult) → IsAdded load ds r (load_loop load ds r)
  unfolding load_loop
  load_loop-IsAdded [] r = record {
    plugins = [];
    failures = [];
    gives = nothing;
    loaded = sym (append-nil r.loaded);
    failed = sym (append-nil r.failed);
  }
  load_loop-IsAdded (d ∷ ds) r = elim (Bool-cases d.enabled) [
    | inl on ↦ round-IsAdded d ds r (load d) on refl (load_loop-IsAdded ds)
    | inr off ↦
        let a = load_loop-IsAdded ds r in
        let step : load_loop load (d ∷ ds) r ≡ load_loop load ds r = rw off in
        subst (IsAdded load (d ∷ ds) r) (sym step) (record {
          plugins = a.plugins;
          failures = a.failures;
          gives = disabled d off a.gives;
          loaded = a.loaded;
          failed = a.failed;
        })
  ]

-- What a call of `load_plugins` guarantees of the registry's plugins and of its result.
pub record IsLoaded (load : PluginDefinition → Result (Option Plugin))
    (definitions : List PluginDefinition) : Type 0 where
  pub gives :
      Gives load definitions
        (load_plugins load definitions).1.loaded
        (load_plugins load definitions).1.failed
  pub sorted : IsSorted (load_plugins load definitions).0
  pub same : Perm (load_plugins load definitions).0 (load_plugins load definitions).1.loaded
  pub stable :
      (n : ℕ)
      → at_priority n (load_plugins load definitions).0
        ≡ at_priority n (load_plugins load definitions).1.loaded

-- The result of `load_plugins` lists, in the order of the definitions, the plugins of the enabled ones
-- with the name and the priority of their definitions, and the exceptions of those that cannot be
-- loaded. The registry's plugins are the loaded ones, sorted by priority; those of one priority stand
-- in the order of their definitions.
pub load_plugins-IsLoaded :
    (load : PluginDefinition → Result (Option Plugin)) (definitions : List PluginDefinition)
    → IsLoaded load definitions
unfolding load_plugins
load_plugins-IsLoaded load definitions =
    let start : LoadResult = record { loaded = []; failed = [] } in
    let r = load_loop load definitions start in
    let a = load_loop-IsAdded load definitions start in
    record {
      gives =
          subst (λ ps. Gives load definitions ps r.failed) (sym a.loaded)
            (subst (λ fs. Gives load definitions a.plugins fs) (sym a.failed) a.gives);
      sorted = sort_plugins-IsSorted r.loaded;
      same = sort_plugins-Perm r.loaded;
      stable = λ n. sort_plugins-at_priority n r.loaded;
    }
