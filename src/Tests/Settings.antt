-- ===== src/Tests/Settings.antt =====
-- Changes of a staged configuration.
use ploston_core.Prelude.{◌≡◌, refl, true, none, some, List, [], ◌∷◌}
use ploston_core.Prelude.Texts.{split_at}
use ploston_core.Prelude.Int.{pos}
use ploston_core.Value.{Value, Fields, end, field, get_field}
use ploston_core.Staged.{
  StagedConfig, put_field, deep_merge, is_json, is_json_fields, init, child, set_at,
  persist_to_redis, set, get_at, get, settle, restore_from_redis,
}
use ploston_core.Staged.Recovery.{
  Change, set_to, discard, change_all, all_json, restore_from_redis-change_all,
}

-- {"mcp": {"servers": {"github": {"command": "old", "timeout": 30}}}, "log": "info"}
abbrev loaded : Fields
loaded =
    field "mcp"
      (Value.dict (
        field "servers"
          (Value.dict (
            field "github"
              (Value.dict
                (field "command" (Value.str "old") (field "timeout" (Value.int (pos 30)) end)))
              end))
          end))
      (field "log" (Value.str "info") end)

abbrev staged : StagedConfig
staged = init (some loaded) true none

abbrev github : Value
github = Value.dict (field "command" (Value.str "new") end)

merged_settings :
    get (some "mcp.servers.github") (set "mcp.servers.github" github staged)
    ≡ Value.dict (field "command" (Value.str "new") (field "timeout" (Value.int (pos 30)) end))
unfolding get set persist_to_redis set_at split_at deep_merge get_at put_field get_field child
    is_json_fields
merged_settings = refl

-- A number that was staged on the way is overwritten, and what the base has there shows again.
base_shows_again :
    get
      (some "mcp.servers.github.timeout")
      (set "mcp.servers.slack" github (set "mcp.servers" (Value.int (pos 5)) staged))
    ≡ Value.int (pos 30)
unfolding get set persist_to_redis set_at split_at deep_merge get_at put_field get_field child
    is_json_fields
base_shows_again = refl

abbrev changes : List Change
changes =
    set_to "log" (Value.str "debug")
    ∷ discard
    ∷ set_to "mcp.servers.github" github
    ∷ set_to "log" Value.null
    ∷ []

restore_from_redis-change_all_example :
    (restore_from_redis (
      init none true (settle (change_all changes (init (some loaded) true none))).stored)).1.changes
    ≡ (change_all changes (init (some loaded) true none)).changes
unfolding all_json is_json get_field
restore_from_redis-change_all_example =
    restore_from_redis-change_all changes (some loaded) none refl
