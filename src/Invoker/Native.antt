-- ===== src/Invoker/Native.antt =====
-- Tools of a native server, and `invoke`.
use ploston_core.Prelude.{
  ℕ, String, ◌≡◌, refl, ap, ◌∙◌, true, Option, none, some, List, [], ◌∷◌, arith, eq_iff, mem,
  mem-append, false, ◌++◌, ◌==◌, Bool-cases, inl, inr, if◌then◌else◌,
}
use ploston_core.Prelude.Assoc.{Assoc, lookup, lookup-insert}
use ploston_core.Errors.{err, ael}
use ploston_core.Types.{ToolSource}
use ploston_core.Value.{Value}
use ploston_core.Tools.{ToolSchema, ToolDefinition, ToolRegistry, is_available, source_for_server}
use ploston_core.Tools.Refresh.{
  Merge, start_merge, refresh, merged, merge_tool, merge_server, merge_servers, with_tags, new_tool,
  refreshed, unavailable,
}
use ploston_core.Tools.Gathered.{reported, names_from, marked}
use ploston_core.Tools.Status.{gone, gone-reported, refresh-lookup}
use ploston_core.Invoker.{Backends, normalize_tool_name, invoke, route}
use ploston_core.Invoker.Returned.{invoke-route}

-- A tool as a server left it that reported it.
abbrev IsReportedBy : String → Option ToolDefinition → Type 0
IsReportedBy server o =
    (t : ToolDefinition) × (o ≡ some t)
    × (is_available t.status ≡ true)
    × (t.source ≡ source_for_server server)

merged-IsReportedBy :
    (server : String) (now : ℕ) (schema : ToolSchema) (known : Option ToolDefinition)
    → IsReportedBy server (some (merged server now schema known))
unfolding merged with_tags new_tool refreshed is_available
merged-IsReportedBy server now schema none = (merged server now schema none, refl, refl, refl)
merged-IsReportedBy server now schema (some known) =
    (merged server now schema (some known), refl, refl, refl)

module _ (n : String) (now : ℕ) where
  merge_server-keeps :
      (server : String) (ts : List ToolSchema) (m : Merge)
      → mem n (names_from ts) ≡ false
      → lookup n (merge_server server now ts m).tools ≡ lookup n m.tools
  unfolding merge_server merge_tool names_from mem
  merge_server-keeps server [] m h = refl
  merge_server-keeps server (t ∷ ts) m h = ground (
    arith,
    merge_server-keeps server ts (merge_tool server now t m),
    lookup-insert t.name n (merged server now t (lookup t.name m.tools)) m.tools,
    eq_iff t.name n,
  )

  lookup-merge_tool :
      (server : String) (t : ToolSchema) (m : Merge)
      → (t.name == n) ≡ true
      → lookup n (merge_tool server now t m).tools
        ≡ some (merged server now t (lookup t.name m.tools))
  unfolding merge_tool
  lookup-merge_tool server t m here =
      lookup-insert t.name n (merged server now t (lookup t.name m.tools)) m.tools ∙ rw here

  merge_server-IsReportedBy :
      (server : String) (ts : List ToolSchema) (m : Merge)
      → mem n (names_from ts) ≡ true
      → IsReportedBy server (lookup n (merge_server server now ts m).tools)
  unfolding merge_server names_from mem
  merge_server-IsReportedBy server [] m h = absurd (cc h)
  merge_server-IsReportedBy server (t ∷ ts) m h = elim (Bool-cases (mem n (names_from ts))) [
    | inl later ↦ merge_server-IsReportedBy server ts (merge_tool server now t m) later
    | inr last ↦
        let here : (t.name == n) ≡ true = ground (arith, last, h) in
        rw
          (
            merge_server-keeps server ts (merge_tool server now t m) last,
            lookup-merge_tool server t m here,
          )
          (merged-IsReportedBy server now t (lookup t.name m.tools))
  ]

  merge_servers-keeps :
      (servers : Assoc (List ToolSchema)) (m : Merge)
      → mem n (reported servers) ≡ false
      → lookup n (merge_servers now servers m).tools ≡ lookup n m.tools
  unfolding merge_servers reported
  merge_servers-keeps [] m h = refl
  merge_servers-keeps ((server, ts) ∷ servers) m h = ground (
    arith,
    merge_servers-keeps servers (merge_server server now ts m),
    merge_server-keeps server ts m,
    mem-append n (names_from ts) (reported servers),
  )

  -- The last server that reports a name decides on its source.
  merge_servers-IsReportedBy :
      (before after : Assoc (List ToolSchema)) (server : String) (ts : List ToolSchema) (m : Merge)
      → mem n (names_from ts) ≡ true
      → mem n (reported after) ≡ false
      → IsReportedBy server (lookup n (merge_servers now (before ++ (server, ts) ∷ after) m).tools)
  unfolding merge_servers
  merge_servers-IsReportedBy [] after server ts m h last =
      rw (merge_servers-keeps after (merge_server server now ts m) last)
        (merge_server-IsReportedBy server ts m h)
  merge_servers-IsReportedBy ((first, us) ∷ before) after server ts m h last =
      merge_servers-IsReportedBy before after server ts (merge_server first now us m) h last

  is_reported :
      (before after : Assoc (List ToolSchema)) (server : String) (ts : List ToolSchema)
      → mem n (names_from ts) ≡ true
      → mem n (reported (before ++ (server, ts) ∷ after)) ≡ true
  unfolding reported
  is_reported [] after server ts h = ground (arith, mem-append n (names_from ts) (reported after))
  is_reported ((first, us) ∷ before) after server ts h = ground (
    arith,
    is_reported before after server ts h,
    mem-append n (names_from us) (reported (before ++ (server, ts) ∷ after)),
  )

route-native :
    {W : Type 0} (b : Backends W) (n : String) (params : Assoc Value) (timeout : Option ℕ) (w : W)
    (t : ToolDefinition)
    → t.source ≡ ToolSource.native
    → route b n params timeout (record { source = t.source; server_name = t.server_name }) w
      ≡ (err (ael "INTERNAL_ERROR" n), w)
unfolding route
route-native b n params timeout w t e = rw (e, route) refl

-- A tool with a name without a runner that a native server (`native_tools` or `native-tools`) reported
-- in a refresh, and no server behind it in the order of the refresh, is available behind the refresh,
-- and yet `invoke` raises INTERNAL_ERROR for it and calls no backend.
pub invoke-native :
    {W : Type 0} (b : Backends W) (now : ℕ) (before after : Assoc (List ToolSchema))
    (server : String) (ts : List ToolSchema) (s : ToolRegistry) (n : String) (params : Assoc Value)
    (timeout : Option ℕ) (w : W)
    → source_for_server server ≡ ToolSource.native
    → mem n (names_from ts) ≡ true
    → mem n (reported after) ≡ false
    → normalize_tool_name n ≡ none
    → (t : ToolDefinition) × (lookup n (refresh now (before ++ (server, ts) ∷ after) s).1.tools
        ≡ some t)
      × (is_available t.status ≡ true)
      × (invoke b (refresh now (before ++ (server, ts) ∷ after) s).1 n params timeout w
          ≡ (err (ael "INTERNAL_ERROR" n), w))
invoke-native b now before after server ts s n params timeout w native h last direct =
    let servers = before ++ (server, ts) ∷ after in
    let (t, at, up, source) =
      merge_servers-IsReportedBy n now before after server ts (start_merge s) h last in
    let found : lookup n (refresh now servers s).1.tools ≡ some t =
      refresh-lookup now servers s n
      ∙ ap (marked (gone now servers s) n) at
      ∙ ap (λ b. some (if b then unavailable t else t))
          (gone-reported now servers s n t (is_reported n now before after server ts h)) in
    (
      t,
      found,
      up,
      invoke-route b (refresh now servers s).1 n params timeout w t direct found up
          ∙ route-native b n params timeout w t (source ∙ native),
    )
