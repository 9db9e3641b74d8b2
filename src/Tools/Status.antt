-- ===== src/Tools/Status.antt =====
-- What a refresh of the tool registry leaves: the status of every tool, and the server it goes to.
use ploston_core.Prelude.{
  ℕ, String, ◌≡◌, refl, ap, ◌∙◌, Bool, true, false, none, some, List, arith, mem, if◌then◌else◌,
}
use ploston_core.Prelude.Assoc.{Assoc, lookup, keys}
use ploston_core.Tools.{ToolSchema, ToolDefinition, ToolRegistry, is_available, is_remote}
use ploston_core.Tools.Refresh.{Merge, merge_servers, start_merge, unavailable, is_gone, refresh}
use ploston_core.Tools.Gathered.{
  reported, IsMerged, known-server, merge_servers-IsMerged, seen-merge_servers, marked, lookup-mark,
  mem-keys, conclude-tools,
}

-- The tool `n` behind a refresh with the reports of `servers`.
pub record IsRefreshed (servers : Assoc (List ToolSchema)) (before after : Assoc ToolDefinition)
    (n : String) : Type 0 where
  pub up :
      mem n (reported servers) ≡ true
      → (t : ToolDefinition) × (lookup n after ≡ some t) × (is_available t.status ≡ true)
  pub down :
      (old : ToolDefinition)
      → mem n (reported servers) ≡ false
      → lookup n before ≡ some old
      → lookup n after ≡ some (if is_remote old.source then unavailable old else old)
  pub absent : mem n (reported servers) ≡ false → lookup n before ≡ none → lookup n after ≡ none
  pub server :
      (old : ToolDefinition)
      → lookup n before ≡ some old
      → (t : ToolDefinition) × (lookup n after ≡ some t) × (t.server_name ≡ old.server_name)

module _ (now : ℕ) (servers : Assoc (List ToolSchema)) (s : ToolRegistry) where
  abbrev pub gathered : Merge
  gathered = merge_servers now servers (start_merge s)

  start-IsMerged : IsMerged s.tools (start_merge s)
  unfolding mem
  start-IsMerged = record { hit = λ n h. cc; miss = λ n h. refl }

  gathered-IsMerged : IsMerged s.tools gathered
  gathered-IsMerged = merge_servers-IsMerged s.tools now servers (start_merge s) start-IsMerged

  gathered-seen : (n : String) → mem n gathered.seen ≡ mem n (reported servers)
  unfolding mem
  gathered-seen n = seen-merge_servers n now servers (start_merge s)

  abbrev pub gone : String → ToolDefinition → Bool
  gone = is_gone (keys s.tools) gathered.seen

  pub refresh-lookup :
      (n : String)
      → lookup n (refresh now servers s).1.tools ≡ marked gone n (lookup n gathered.tools)
  unfolding refresh
  refresh-lookup n =
      ap (lookup n) (conclude-tools gone gathered s) ∙ lookup-mark gone n gathered.tools

  pub gone-reported :
      (n : String) (t : ToolDefinition) → mem n (reported servers) ≡ true → gone n t ≡ false
  unfolding is_gone
  gone-reported n t h = ground (arith, gathered-seen n)

  gone-missing :
      (n : String) (t : ToolDefinition)
      → mem n (reported servers) ≡ false
      → lookup n s.tools ≡ some t
      → gone n t ≡ is_remote t.source
  unfolding is_gone
  gone-missing n t h e = ground (arith, gathered-seen n, mem-keys n s.tools)

  lookup-missing :
      (n : String) → mem n (reported servers) ≡ false → lookup n gathered.tools ≡ lookup n s.tools
  lookup-missing n h = gathered-IsMerged.miss n (gathered-seen n ∙ h)

  server-unavailable :
      (b : Bool) (t : ToolDefinition) → (if b then unavailable t else t).server_name ≡ t.server_name
  unfolding unavailable
  server-unavailable true t = refl
  server-unavailable false t = refl

-- After `refresh`, for every name: a tool that a server reported is available; a known MCP or native
-- tool that none reported is unavailable and otherwise as before, a known system tool that none
-- reported is as before; no other tool is there. No known tool is dropped, and each keeps the server
-- that calls of it go to, whichever server reports it now.
pub refresh-IsRefreshed :
    (now : ℕ) (servers : Assoc (List ToolSchema)) (s : ToolRegistry) (n : String)
    → IsRefreshed servers s.tools (refresh now servers s).1.tools n
refresh-IsRefreshed now servers s n = record {
  up = λ h.
      let (t, at, live) =
        (gathered-IsMerged now servers s).hit n (gathered-seen now servers s n ∙ h) in
      (
        t,
        refresh-lookup now servers s n
            ∙ ap (marked (gone now servers s) n) at
            ∙ ap (λ b. some (if b then unavailable t else t)) (gone-reported now servers s n t h),
        live.up,
      );
  down = λ old h e.
      refresh-lookup now servers s n
      ∙ ap (marked (gone now servers s) n) (lookup-missing now servers s n h ∙ e)
      ∙ ap (λ b. some (if b then unavailable old else old)) (gone-missing now servers s n old h e);
  absent = λ h e.
      refresh-lookup now servers s n
      ∙ ap (marked (gone now servers s) n) (lookup-missing now servers s n h ∙ e);
  server = λ old e.
      let (t, at, same) =
        known-server s.tools (gathered now servers s) (gathered-IsMerged now servers s) n old e in
      (
        if gone now servers s n t then unavailable t else t,
        refresh-lookup now servers s n ∙ ap (marked (gone now servers s) n) at,
        server-unavailable now servers s (gone now servers s n t) t ∙ same,
      );
}
