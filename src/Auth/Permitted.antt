-- ===== src/Auth/Permitted.antt =====
-- The tools that a principal sees and may call.
use ploston_core.Prelude.{
  ◌≡◌, refl, ◌∙◌, String, Bool, true, false, ◌&&◌, ◌||◌, not, Option, none, some, List, [], ◌∷◌,
  eq_iff, mem, select, arith, is_some,
}
use ploston_core.Tools.{ToolDefinition}
use ploston_core.Auth.{ToolAccessMode, ToolAccess, can_access_server, Principal}
use ploston_core.Auth.Access.{
  is_all, intersect, compute_effective_access, admits, filter_tools_by_principal, can_access_tool,
}

-- Whether a bridge lets a server pass: a missing or an empty filter lets all pass.
abbrev pub bridge_allows : Option (List String) → String → Bool
bridge_allows none server = true
bridge_allows (some []) server = true
bridge_allows (some (s ∷ ss)) server = mem server (s ∷ ss)

mem-select :
    (p : String → Bool) (x : String) (xs : List String) → mem x (select p xs) ≡ (p x && mem x xs)
unfolding mem select
mem-select p x [] = ground arith
mem-select p x (y ∷ ys) = ground (arith, mem-select p x ys, eq_iff y x)

intersect_lem :
    (mode : ToolAccessMode) (servers bridge : List String) (server : String)
    → can_access_server (intersect mode servers bridge) server
      ≡ (can_access_server (record { mode = mode; servers = servers }) server && mem server bridge)
unfolding intersect can_access_server
intersect_lem ToolAccessMode.all servers bridge server = refl
intersect_lem ToolAccessMode.allowlist servers bridge server =
    ground (arith, mem-select (λ s. mem s bridge) server servers)
intersect_lem ToolAccessMode.denylist servers bridge server =
    ground (arith, mem-select (λ s. not (mem s servers)) server bridge)

effective_lem :
    (access : ToolAccess) (bridge : Option (List String)) (server : String)
    → can_access_server (compute_effective_access access bridge) server
      ≡ (can_access_server access server && bridge_allows bridge server)
unfolding compute_effective_access
effective_lem access none server = ground arith
effective_lem access (some []) server = ground arith
effective_lem access (some (s ∷ ss)) server =
    intersect_lem access.mode access.servers (s ∷ ss) server

-- Whether a bridge gives a filter.
abbrev pub filters : Option (List String) → Bool
filters none = false
filters (some []) = false
filters (some (s ∷ ss)) = true

is_all-intersect :
    (mode : ToolAccessMode) (servers bridge : List String)
    → is_all (intersect mode servers bridge).mode ≡ false
unfolding intersect is_all
is_all-intersect ToolAccessMode.all servers bridge = refl
is_all-intersect ToolAccessMode.allowlist servers bridge = refl
is_all-intersect ToolAccessMode.denylist servers bridge = refl

is_all-effective :
    (access : ToolAccess) (bridge : Option (List String))
    → is_all (compute_effective_access access bridge).mode
      ≡ (is_all access.mode && not (filters bridge))
unfolding compute_effective_access
is_all-effective access none = ground arith
is_all-effective access (some []) = ground arith
is_all-effective access (some (s ∷ ss)) =
    is_all-intersect access.mode access.servers (s ∷ ss) ∙ ground arith

-- Whether a tool is listed.
abbrev pub listed : Principal → Option (List String) → ToolDefinition → Bool
listed p bridge t =
    can_access_tool t.server_name (some p) bridge && (is_some t.server_name || not (filters bridge))

admits-listed :
    (p : Principal) (bridge : Option (List String)) (server : Option String)
    → admits (compute_effective_access p.tool_access bridge) server
      ≡ (can_access_tool server (some p) bridge && (is_some server || not (filters bridge)))
unfolding can_access_tool
admits-listed p bridge none = is_all-effective p.tool_access bridge
admits-listed p bridge (some server) = ground arith

select_ext :
    {A : Type 0} (f g : A → Bool) (xs : List A) → ((x : A) → f x ≡ g x) → select f xs ≡ select g xs
unfolding select
select_ext f g [] h = refl
select_ext f g (x ∷ xs) h = rw (h x, select_ext f g xs h) refl

-- The two checks of a principal agree. A tool of a server may be called exactly if the principal's
-- access and the bridge's filter both let the server pass. The listed tools are those that may be
-- called, in their order, except that a bridge with a filter lists no tool without a server.
pub filter_tools_by_principal-listed :
    (tools : List ToolDefinition) (p : Principal) (bridge : Option (List String)) (server : String)
    → (can_access_tool (some server) (some p) bridge
        ≡ (can_access_server p.tool_access server && bridge_allows bridge server))
      × (filter_tools_by_principal tools (some p) bridge ≡ select (listed p bridge) tools)
unfolding filter_tools_by_principal can_access_tool
filter_tools_by_principal-listed tools p bridge server = (
  effective_lem p.tool_access bridge server,
  select_ext (λ t. admits (compute_effective_access p.tool_access bridge) t.server_name)
      (listed p bridge) tools (λ t. admits-listed p bridge t.server_name),
)
