-- ===== src/Auth/Middleware.antt =====
-- `ProAuthMiddleware` of src/ploston_core/auth/middleware.py: what a request needs, and whether it is
-- handed on. The handler that comes next is not part of the model.
use Prim.Native.Char.{code}
use Prim.Native.String.{slice, len}
use text.Mathlib.Text.{starts_with}
use ploston_core.Prelude.{
  ℕ, String, Bool, false, ◌&&◌, not, Option, none, some, List, [], ◌∷◌, ◌==◌, nat_eq, mem, or_else,
  truthy, if◌then◌else◌,
}
use ploston_core.Prelude.Assoc.{Assoc, lookup}
use ploston_core.Prelude.Dicts.{any}
use ploston_core.Prelude.Texts.{split_at, join}
use ploston_core.Prelude.Strings.{ends_with}
use ploston_core.Auth.{Scope, Principal, has_any_scope, anonymous_principal}
use ploston_core.Auth.Store.{Bcrypt, PrincipalStore, validate_key}

-- `pattern.split(":", 1)`, where there is a colon.
abbrev pub split_once : ℕ → String → String × String
split_once c String.[] = ("", "")
split_once c (String.◌∷◌ d s) =
    let (head, tail) = split_once c s in
    if nat_eq (code d) c then ("", s) else (String.◌∷◌ d head, tail)

abbrev pub endpoint_scopes : Assoc (List Scope)
endpoint_scopes =
    ("GET:/api/v1/workflows", Scope.read ∷ [])
    ∷ ("GET:/api/v1/tools", Scope.read ∷ [])
    ∷ ("GET:/api/v1/executions", Scope.read ∷ [])
    ∷ ("GET:/api/v1/runners", Scope.read ∷ [])
    ∷ ("GET:/api/v1/config", Scope.read ∷ [])
    ∷ ("POST:/api/v1/workflows/*/execute", Scope.execute ∷ [])
    ∷ ("POST:/api/v1/tools/call", Scope.execute ∷ [])
    ∷ ("POST:/mcp", Scope.execute ∷ [])
    ∷ ("POST:/api/v1/workflows", Scope.write ∷ [])
    ∷ ("PUT:/api/v1/workflows", Scope.write ∷ [])
    ∷ ("DELETE:/api/v1/workflows", Scope.write ∷ [])
    ∷ ("POST:/api/v1/config", Scope.write ∷ [])
    ∷ ("PUT:/api/v1/config", Scope.write ∷ [])
    ∷ ("POST:/api/v1/principals", Scope.admin ∷ [])
    ∷ ("PUT:/api/v1/principals", Scope.admin ∷ [])
    ∷ ("DELETE:/api/v1/principals", Scope.admin ∷ [])
    ∷ ("POST:/api/v1/principals/*/rotate", Scope.admin ∷ [])
    ∷ []

abbrev pub default_exclude_paths : List String
default_exclude_paths =
    "/health" ∷ "/info" ∷ "/docs" ∷ "/redoc" ∷ "/openapi.json" ∷ "/runner/ws" ∷ []

-- A pattern fits only with exactly one `*`.
unfoldable pub fits_parts : List String → String → Bool
fits_parts (prefix ∷ suffix ∷ []) path = starts_with path prefix && ends_with path suffix
fits_parts _ path = false

abbrev pub fits : String → String → String → Bool
fits method path pattern =
    let (pattern_method, pattern_path) = split_once b':' pattern in
    pattern_method == method && fits_parts (split_at b'*' pattern_path) path

-- The loop over the wildcard patterns.
unfoldable pub wildcard_scopes : String → String → Assoc (List Scope) → Option (List Scope)
wildcard_scopes method path [] = none
wildcard_scopes method path ((pattern, scopes) ∷ more) =
    if fits method path pattern then some scopes else wildcard_scopes method path more

unfoldable pub default_scopes : String → List Scope
default_scopes method =
    if method == "GET"
    then Scope.read ∷ []
    else if mem method ("POST" ∷ "PUT" ∷ "DELETE" ∷ [])
    then Scope.execute ∷ []
    else Scope.read ∷ []

-- `_get_required_scope`
unfoldable pub get_required_scope : String → String → List Scope
get_required_scope method path =
    or_else (lookup (join ":" (method ∷ path ∷ [])) endpoint_scopes)
      (or_else (wildcard_scopes method path endpoint_scopes) (default_scopes method))

-- The request, with its headers `Authorization` and `X-API-Key`.
pub record Request : Type 0 where
  pub method : String
  pub path : String
  pub authorization : Option String
  pub x_api_key : Option String

unfoldable pub extract_api_key : Request → Option String
extract_api_key r =
    let header = or_else r.authorization "" in
    if starts_with header "Bearer " then some (slice header 7 (len header)) else r.x_api_key

pub record ProAuthMiddleware : Type 0 where
  pub store : Option PrincipalStore
  pub auth_enabled : Bool
  pub exclude_paths : List String

-- The response, or that the request is handed on with a principal attached, if any.
pub data Outcome : Type 0 where
  handed : Option Principal → Outcome
  unauthorized not_configured : Outcome
  forbidden_disabled : String → Outcome
  forbidden_scope : String → List Scope → Outcome

-- `exclude_paths or DEFAULT_EXCLUDE_PATHS`
unfoldable pub init : Option PrincipalStore → Bool → Option (List String) → ProAuthMiddleware
init store auth_enabled excluded = record {
  store = store;
  auth_enabled = auth_enabled;
  exclude_paths = elim (or_else excluded []) [ [] ↦ default_exclude_paths | p ∷ ps ↦ p ∷ ps ];
}

-- `required_scopes and not principal.has_any_scope(required_scopes)`
unfoldable pub lacks : Principal → List Scope → Bool
lacks p [] = false
lacks p (scope ∷ scopes) = not (has_any_scope p (scope ∷ scopes))

unfoldable pub check_principal : Request → Option Principal → Outcome
check_principal r none = unauthorized
check_principal r (some p) =
    let required = get_required_scope r.method r.path in
    if not p.enabled
    then forbidden_disabled p.name
    else if lacks p required
    then forbidden_scope p.name required
    else handed (some p)

-- The requests with a key, in the mode with authentication, with the store that there is.
unfoldable pub authenticate :
    Bcrypt
    → (String → Bool)
    → String
    → Request
    → String
    → Option PrincipalStore
    → ProAuthMiddleware
    → Outcome × ProAuthMiddleware
authenticate bcrypt fails now r api_key none m = (not_configured, m)
authenticate bcrypt fails now r api_key (some s) m =
    let (found, t) = validate_key bcrypt fails now api_key s in
    (check_principal r found, record m { store = some t })

abbrev pub is_excluded : Request → ProAuthMiddleware → Bool
is_excluded r m = any (starts_with r.path) m.exclude_paths

unfoldable pub dispatch :
    Bcrypt → (String → Bool) → String → Request → ProAuthMiddleware → Outcome × ProAuthMiddleware
dispatch bcrypt fails now r m =
    if is_excluded r m
    then (handed none, m)
    else if not m.auth_enabled
    then (handed (some anonymous_principal), m)
    else if truthy (extract_api_key r)
    then authenticate bcrypt fails now r (or_else (extract_api_key r) "") m.store m
    else (unauthorized, m)
