-- ===== src/Tools/Gathered.antt =====
-- The middle of a refresh of the tool registry: what the reports of the servers leave.
use mathlib.Core.Path.{subst}
use ploston_core.Prelude.{
  eq_refl, ℕ, String, ◌≡◌, refl, ◌∙◌, Bool, true, false, ◌||◌, Option, none, some, List, [], ◌∷◌,
  ◌++◌, ◌==◌, arith, eq_iff, mem, mem-append, is_some, if◌then◌else◌, Bool-cases, inl, inr,
}
use ploston_core.Prelude.Assoc.{Assoc, lookup, insert, keys, lookup-insert}
use ploston_core.Tools.{
  ToolSchema, ToolDefinition, ToolRegistry, is_available, is_remote, source_for_server,
  update_metrics, fire_tools_changed,
}
use ploston_core.Tools.Refresh.{
  Merge, with_tags, new_tool, refreshed, merged, merge_tool, merge_server, merge_servers,
  unavailable, mark, conclude,
}

-- The names that a server reports, and those that all of them report.
unfoldable pub names_from : List ToolSchema → List String
names_from [] = []
names_from (t ∷ ts) = t.name ∷ names_from ts

unfoldable pub reported : Assoc (List ToolSchema) → List String
reported [] = []
reported ((server_name, ts) ∷ servers) = names_from ts ++ reported servers

-- A tool that a server reported: it is available, remote, and keeps the server that it had.
pub record IsLive (before : Assoc ToolDefinition) (n : String) (t : ToolDefinition) : Type 0 where
  pub up : is_available t.status ≡ true
  pub remote : is_remote t.source ≡ true
  pub keeps : (old : ToolDefinition) → lookup n before ≡ some old → t.server_name ≡ old.server_name

-- In the middle of a refresh that started with the tools `before`.
pub record IsMerged (before : Assoc ToolDefinition) (m : Merge) : Type 0 where
  pub hit :
      (n : String)
      → mem n m.seen ≡ true
      → (t : ToolDefinition) × (lookup n m.tools ≡ some t) × IsLive before n t
  pub miss : (n : String) → mem n m.seen ≡ false → lookup n m.tools ≡ lookup n before

source_for_server-is_remote : (s : String) → is_remote (source_for_server s) ≡ true
unfolding source_for_server is_remote
source_for_server-is_remote s = ground arith

module _ (before : Assoc ToolDefinition) (m : Merge) (inv : IsMerged before m) where
  -- A known tool still has its server.
  pub known-server :
      (n : String) (old : ToolDefinition)
      → lookup n before ≡ some old
      → (t : ToolDefinition) × (lookup n m.tools ≡ some t) × (t.server_name ≡ old.server_name)
  known-server n old h = elim (Bool-cases (mem n m.seen)) [
    | inl seen ↦ let (t, e, live) = inv.hit n seen in (t, e, live.keeps old h)
    | inr new ↦ (old, inv.miss n new ∙ h, refl)
  ]

  merged-IsLive :
      (server_name : String) (now : ℕ) (schema : ToolSchema) (known : Option ToolDefinition)
      → lookup schema.name m.tools ≡ known
      → IsLive before schema.name (merged server_name now schema known)
  unfolding merged with_tags new_tool refreshed is_available
  merged-IsLive server_name now schema none e = record {
    up = refl;
    remote = source_for_server-is_remote server_name;
    keeps = λ old h. let (t, at, same) = known-server schema.name old h in cc;
  }
  merged-IsLive server_name now schema (some known) e = record {
    up = refl;
    remote = source_for_server-is_remote server_name;
    keeps = λ old h. let (t, at, same) = known-server schema.name old h in ground arith;
  }

  merge_tool-IsMerged :
      (server_name : String) (now : ℕ) (schema : ToolSchema)
      → IsMerged before (merge_tool server_name now schema m)
  unfolding merge_tool mem
  merge_tool-IsMerged server_name now schema =
      let t = merged server_name now schema (lookup schema.name m.tools) in
      let live : IsLive before schema.name t =
        merged-IsLive server_name now schema (lookup schema.name m.tools) refl in
      record {
        hit = λ n h. elim (Bool-cases (schema.name == n)) [
          | inl same ↦
              let n_is : schema.name ≡ n = (eq_iff schema.name n).0 same in
              subst
                (λ x.
                  (q : ToolDefinition) × (lookup x (insert schema.name t m.tools) ≡ some q)
                  × IsLive before x q)
                n_is
                (
                  t,
                  lookup-insert schema.name schema.name t m.tools
                      ∙ ground (arith, eq_refl schema.name),
                  live,
                )
          | inr other ↦
              let (q, at, its) =
                inv.hit n (ground (arith, mem-append n m.seen (schema.name ∷ []))) in
              (q, ground (arith, lookup-insert schema.name n t m.tools), its)
        ];
        miss = λ n h. ground (
          arith,
          mem-append n m.seen (schema.name ∷ []),
          lookup-insert schema.name n t m.tools,
          inv.miss n,
        );
      }

module _ (before : Assoc ToolDefinition) (now : ℕ) where
  merge_server-IsMerged :
      (server_name : String) (schemas : List ToolSchema) (m : Merge)
      → IsMerged before m
      → IsMerged before (merge_server server_name now schemas m)
  unfolding merge_server
  merge_server-IsMerged server_name [] m inv = inv
  merge_server-IsMerged server_name (t ∷ ts) m inv =
      merge_server-IsMerged server_name ts (merge_tool server_name now t m)
        (merge_tool-IsMerged before m inv server_name now t)

  pub merge_servers-IsMerged :
      (servers : Assoc (List ToolSchema)) (m : Merge)
      → IsMerged before m
      → IsMerged before (merge_servers now servers m)
  unfolding merge_servers
  merge_servers-IsMerged [] m inv = inv
  merge_servers-IsMerged ((server_name, ts) ∷ servers) m inv =
      merge_servers-IsMerged servers (merge_server server_name now ts m)
        (merge_server-IsMerged server_name ts m inv)

seen-merge_server :
    (n server_name : String) (now : ℕ) (ts : List ToolSchema) (m : Merge)
    → mem n (merge_server server_name now ts m).seen ≡ (mem n m.seen || mem n (names_from ts))
unfolding merge_server merge_tool names_from mem
seen-merge_server n server_name now [] m = ground arith
seen-merge_server n server_name now (t ∷ ts) m = ground (
  arith,
  seen-merge_server n server_name now ts (merge_tool server_name now t m),
  mem-append n m.seen (t.name ∷ []),
)

pub seen-merge_servers :
    (n : String) (now : ℕ) (servers : Assoc (List ToolSchema)) (m : Merge)
    → mem n (merge_servers now servers m).seen ≡ (mem n m.seen || mem n (reported servers))
unfolding merge_servers reported mem
seen-merge_servers n now [] m = ground arith
seen-merge_servers n now ((server_name, ts) ∷ servers) m = ground (
  arith,
  seen-merge_servers n now servers (merge_server server_name now ts m),
  seen-merge_server n server_name now ts m,
  mem-append n (names_from ts) (reported servers),
)

-- The tool of a name behind the marking.
abbrev pub marked :
    (String → ToolDefinition → Bool) → String → Option ToolDefinition → Option ToolDefinition
marked gone n none = none
marked gone n (some t) = some (if gone n t then unavailable t else t)

pub lookup-mark :
    (gone : String → ToolDefinition → Bool) (n : String) (tools : Assoc ToolDefinition)
    → lookup n (mark gone tools).0 ≡ marked gone n (lookup n tools)
unfolding mark lookup
lookup-mark gone n [] = refl
lookup-mark gone n ((j, t) ∷ tools) = ground (arith, lookup-mark gone n tools, eq_iff j n)

pub mem-keys :
    (n : String) (tools : Assoc ToolDefinition) → mem n (keys tools) ≡ is_some (lookup n tools)
unfolding mem lookup
mem-keys n [] = refl
mem-keys n ((j, t) ∷ tools) = ground (arith, mem-keys n tools)

pub conclude-tools :
    (gone : String → ToolDefinition → Bool) (m : Merge) (s : ToolRegistry)
    → (conclude gone m s).1.tools ≡ (mark gone m.tools).0
unfolding conclude update_metrics fire_tools_changed
conclude-tools gone m s = refl
