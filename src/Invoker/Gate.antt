-- ===== src/Invoker/Gate.antt =====
-- Tools that are not available are not called.
use ploston_core.Prelude.{
  ℕ, String, ◌≡◌, refl, ap, ◌∙◌, ◌⊎◌, inl, inr, true, false, Option, none, some, List, mem,
  Bool-cases, if◌then◌else◌,
}
use ploston_core.Prelude.Assoc.{Assoc, lookup}
use ploston_core.Errors.{err, ael}
use ploston_core.Value.{Value}
use ploston_core.Tools.{
  ToolSchema, ToolDefinition, ToolRegistry, is_available, is_remote, get, get_or_raise, get_router,
  router_of,
}
use ploston_core.Tools.Refresh.{refresh, unavailable}
use ploston_core.Tools.Gathered.{reported}
use ploston_core.Tools.Status.{refresh-IsRefreshed}
use ploston_core.Invoker.{Backends, normalize_tool_name, invoke_registered, invoke_named, invoke}

module _ {W : Type 0} (b : Backends W) (s : ToolRegistry) (n : String) (params : Assoc Value)
    (timeout : Option ℕ) (w : W) (direct : normalize_tool_name n ≡ none) where
  invoke-direct :
      invoke b s n params timeout w
      ≡ invoke_registered b n params timeout (get_or_raise n s) (get_router n s) w
  unfolding invoke invoke_named
  invoke-direct = rw (direct, invoke_named) refl

  invoke-absent :
      lookup n s.tools ≡ none → invoke b s n params timeout w ≡ (err (ael "TOOL_UNAVAILABLE" n), w)
  unfolding get_or_raise get invoke_registered
  invoke-absent h = invoke-direct ∙ rw (get_or_raise, get, h, invoke_registered) refl

  invoke-down :
      (t : ToolDefinition)
      → lookup n s.tools ≡ some t
      → is_available t.status ≡ false
      → invoke b s n params timeout w ≡ (err (ael "TOOL_UNAVAILABLE" n), w)
  unfolding get_or_raise get get_router router_of invoke_registered
  invoke-down t h down =
      invoke-direct ∙ rw (get_or_raise, get_router, get, h, router_of, invoke_registered, down) refl

-- A name is called only if its tool is there and available; else the call raises, and nothing
-- outside is touched.
abbrev pub IsGated :
    {W : Type 0} → Backends W → ToolRegistry → String → Assoc Value → Option ℕ → W → Type 0
IsGated b s n params timeout w =
    ((t : ToolDefinition) × (lookup n s.tools ≡ some t) × (is_available t.status ≡ true))
    ⊎ (invoke b s n params timeout w ≡ (err (ael "TOOL_UNAVAILABLE" n), w))

IsGated-at :
    {W : Type 0} (b : Backends W) (s : ToolRegistry) (n : String) (params : Assoc Value)
    (timeout : Option ℕ) (w : W) (found : Option ToolDefinition)
    → lookup n s.tools ≡ found
    → normalize_tool_name n ≡ none
    → IsGated b s n params timeout w
IsGated-at b s n params timeout w none e direct =
    inr (invoke-absent b s n params timeout w direct e)
IsGated-at b s n params timeout w (some t) e direct = elim (Bool-cases (is_available t.status)) [
  | inl up ↦ inl (t, e, up)
  | inr down ↦ inr (invoke-down b s n params timeout w direct t e down)
]

-- For a name without a runner, `invoke` either finds an available tool, or raises TOOL_UNAVAILABLE
-- and calls no backend.
pub invoke-IsGated :
    {W : Type 0} (b : Backends W) (s : ToolRegistry) (n : String) (params : Assoc Value)
    (timeout : Option ℕ) (w : W)
    → normalize_tool_name n ≡ none
    → IsGated b s n params timeout w
invoke-IsGated b s n params timeout w direct =
    IsGated-at b s n params timeout w (lookup n s.tools) refl direct

unreported-at :
    {W : Type 0} (b : Backends W) (now : ℕ) (servers : Assoc (List ToolSchema)) (s : ToolRegistry)
    (n : String) (params : Assoc Value) (timeout : Option ℕ) (w : W) (found : Option ToolDefinition)
    → lookup n s.tools ≡ found
    → normalize_tool_name n ≡ none
    → mem n (reported servers) ≡ false
    → ((old : ToolDefinition) → found ≡ some old → is_remote old.source ≡ true)
    → invoke b (refresh now servers s).1 n params timeout w ≡ (err (ael "TOOL_UNAVAILABLE" n), w)
unfolding unavailable is_available
unreported-at b now servers s n params timeout w none e direct out remote =
    invoke-absent b (refresh now servers s).1 n params timeout w direct
      ((refresh-IsRefreshed now servers s n).absent out e)
unreported-at b now servers s n params timeout w (some old) e direct out remote =
    invoke-down b (refresh now servers s).1 n params timeout w direct (unavailable old)
      ((refresh-IsRefreshed now servers s n).down old out e
        ∙ ap (λ x. some (if x then unavailable old else old)) (remote old refl))
      refl

-- After a refresh in which no server reported a name without a runner, where it was not known or was
-- an MCP or native tool, `invoke` raises TOOL_UNAVAILABLE for it and calls no backend.
pub invoke-refresh :
    {W : Type 0} (b : Backends W) (now : ℕ) (servers : Assoc (List ToolSchema)) (s : ToolRegistry)
    (n : String) (params : Assoc Value) (timeout : Option ℕ) (w : W)
    → normalize_tool_name n ≡ none
    → mem n (reported servers) ≡ false
    → ((old : ToolDefinition) → lookup n s.tools ≡ some old → is_remote old.source ≡ true)
    → invoke b (refresh now servers s).1 n params timeout w ≡ (err (ael "TOOL_UNAVAILABLE" n), w)
invoke-refresh b now servers s n params timeout w direct out remote =
    unreported-at b now servers s n params timeout w (lookup n s.tools) refl direct out remote
