-- ===== src/Plugins/Chain.antt =====
-- Hook chains of src/ploston_core/plugins/registry.py: what a chain returns and when it raises.
use ploston_core.Prelude.{
  ◌≡◌, refl, sym, ap, ◌∙◌, Bool, true, false, ◌||◌, List, [], ◌∷◌, ◌++◌, Bool-cases, inl, inr,
}
use ploston_core.Errors.{Exc, ok, err}
use ploston_core.Plugins.{Plugin, HookReturn, run_chain, execute_chain}

-- A chain that raises, and the plugin that makes it raise.
pub record IsCulprit {T : Type 0} (hook : Plugin → T → HookReturn T) (plugins : List Plugin)
    (start : T) (modified : Bool) (e : Exc) : Type 0 where
  pub before : List Plugin
  pub plugin : Plugin
  pub after : List Plugin
  pub split : plugins ≡ before ++ plugin ∷ after
  pub context : T
  pub changed : Bool
  pub reached :
      run_chain hook before start modified ≡ ok (record { current = context; modified = changed })
  pub fails : hook plugin context ≡ HookReturn.raised e
  pub closed : plugin.fail_open ≡ false

module _ {T : Type 0} (hook : Plugin → T → HookReturn T) where
  run_chain-result :
      (p : Plugin) (ps : List Plugin) (c next : T) (m changed : Bool)
      → hook p c ≡ HookReturn.result next changed
      → run_chain hook (p ∷ ps) c m ≡ run_chain hook ps next (changed || m)
  unfolding run_chain
  run_chain-result p ps c next m changed h = rw (h, run_chain) refl

  run_chain-raw :
      (p : Plugin) (ps : List Plugin) (c next : T) (m : Bool)
      → hook p c ≡ HookReturn.raw next
      → run_chain hook (p ∷ ps) c m ≡ run_chain hook ps next m
  unfolding run_chain
  run_chain-raw p ps c next m h = rw (h, run_chain) refl

  run_chain-skips :
      (p : Plugin) (ps : List Plugin) (c : T) (m : Bool) (e : Exc)
      → hook p c ≡ HookReturn.raised e
      → p.fail_open ≡ true
      → run_chain hook (p ∷ ps) c m ≡ run_chain hook ps c m
  unfolding run_chain
  run_chain-skips p ps c m e h opened = rw (h, opened, run_chain) refl

  run_chain-closed :
      (p : Plugin) (ps : List Plugin) (c : T) (m : Bool) (e : Exc)
      → hook p c ≡ HookReturn.raised e
      → p.fail_open ≡ false
      → run_chain hook (p ∷ ps) c m ≡ err e
  unfolding run_chain
  run_chain-closed p ps c m e h closed = rw (h, closed, run_chain) refl

  -- The culprit of the rest of a chain is one of the chain.
  IsCulprit-cons :
      (p : Plugin) (ps : List Plugin) (c next : T) (m n : Bool) (e : Exc)
      → ((qs : List Plugin) → run_chain hook (p ∷ qs) c m ≡ run_chain hook qs next n)
      → IsCulprit hook ps next n e
      → IsCulprit hook (p ∷ ps) c m e
  IsCulprit-cons p ps c next m n e step k = record {
    before = p ∷ k.before;
    plugin = k.plugin;
    after = k.after;
    split = ap (λ qs. p ∷ qs) k.split;
    context = k.context;
    changed = k.changed;
    reached = step k.before ∙ k.reached;
    fails = k.fails;
    closed = k.closed;
  }

  IsCulprit-from :
      (p : Plugin) (ps : List Plugin) (c : T) (m : Bool) (e : Exc) (r : HookReturn T)
      → hook p c ≡ r
      → ((d : T) (n : Bool) → run_chain hook ps d n ≡ err e → IsCulprit hook ps d n e)
      → run_chain hook (p ∷ ps) c m ≡ err e
      → IsCulprit hook (p ∷ ps) c m e
  IsCulprit-from p ps c m e (HookReturn.result next changed) r rest h =
      IsCulprit-cons p ps c next m (changed || m) e (λ qs. run_chain-result p qs c next m changed r)
        (rest next (changed || m) (sym (run_chain-result p ps c next m changed r) ∙ h))
  IsCulprit-from p ps c m e (HookReturn.raw next) r rest h =
      IsCulprit-cons p ps c next m m e (λ qs. run_chain-raw p qs c next m r)
        (rest next m (sym (run_chain-raw p ps c next m r) ∙ h))
  IsCulprit-from p ps c m e (HookReturn.raised x) r rest h = elim (Bool-cases p.fail_open) [
    | inl opened ↦
        IsCulprit-cons p ps c c m m e (λ qs. run_chain-skips p qs c m x r opened)
          (rest c m (sym (run_chain-skips p ps c m x r opened) ∙ h))
    | inr closed ↦ record {
      before = [];
      plugin = p;
      after = ps;
      split = refl;
      context = c;
      changed = m;
      reached = unfold run_chain in refl;
      fails = cc (r, h, run_chain-closed p ps c m x r closed);
      closed = closed;
    }
  ]

  run_chain-IsCulprit :
      (ps : List Plugin) (c : T) (m : Bool) (e : Exc)
      → run_chain hook ps c m ≡ err e
      → IsCulprit hook ps c m e
  unfolding run_chain
  run_chain-IsCulprit [] c m e h = cc
  run_chain-IsCulprit (p ∷ ps) c m e h =
      IsCulprit-from p ps c m e (hook p c) refl (λ d n g. run_chain-IsCulprit ps d n e g) h

-- Where a hook chain raises, it is the exception of a plugin with `fail_open` false, on the context
-- that the plugins before it leave, and those raise nothing out of the chain.
pub execute_chain-IsCulprit :
    {T : Type 0} (hook : Plugin → T → HookReturn T) (ps : List Plugin) (context : T) (e : Exc)
    → execute_chain hook ps context ≡ err e
    → IsCulprit hook ps context false e
unfolding execute_chain
execute_chain-IsCulprit hook ps context e h = run_chain-IsCulprit hook ps context false e h
