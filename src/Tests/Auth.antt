-- ===== src/Tests/Auth.antt =====
-- A store with two principals, one of them disabled, and requests to the middleware.
use Prim.Native.String
use ploston_core.Prelude.{
  ◌≡◌, refl, String, Bool, true, false, ◌&&◌, none, some, [], ◌∷◌, ◌==◌, mem, select, truthy,
}
use ploston_core.Prelude.Assoc.{lookup}
use ploston_core.Prelude.Dicts.{any}
use ploston_core.Prelude.Texts.{join, prepend, split_at}
use ploston_core.Prelude.Strings.{ends_with}
use ploston_core.Auth.{
  Scope, ToolAccessMode, Principal, same_scope, has_scope, has_any_scope, can_access_server,
}
use ploston_core.Auth.Access.{filter_tools_by_principal, can_access_tool}
use ploston_core.Auth.Store.{
  Bcrypt, PrincipalStore, validate_key, rotate_key, find_key, get_value, set_value,
}
use ploston_core.Auth.Middleware.{
  Request, ProAuthMiddleware, handed, unauthorized, extract_api_key, get_required_scope,
  wildcard_scopes, fits_parts, default_scopes, lacks, check_principal, authenticate, dispatch,
}
use ploston_core.Auth.Granted.{IsJustified, dispatch-IsJustified}
use ploston_core.Auth.Permitted.{bridge_allows, listed, filter_tools_by_principal-listed}
use ploston_core.Tests.Tools.{search}

-- The hash of a key is the key with a mark.
abbrev plain : Bcrypt
plain = record {
  hash_api_key = λ k. String.◌++◌ "#" k;
  verify_api_key = λ k h. String.◌++◌ "#" k == h;
}

abbrev ann : Principal
ann = record {
  id = "usr_ann";
  name = "ann";
  scopes = Scope.read ∷ Scope.execute ∷ [];
  tool_access = record { mode = ToolAccessMode.denylist; servers = "mail" ∷ [] };
  rate_limit = none;
  enabled = true;
}

abbrev bob : Principal
bob = record ann { id = "usr_bob"; name = "bob"; enabled = false }

abbrev store : PrincipalStore
store = record {
  principals = ("bob", bob) ∷ ("ann", ann) ∷ [];
  redis =
      ("principal:bob:api_key_hash", "#plt_bob_1")
      ∷ ("principal:ann:api_key_hash", "#plt_ann_1")
      ∷ [];
}

abbrev up : String → Bool
up key = false

abbrev down : String → Bool
down key = true

abbrev request : String → String → String → Request
request method path key = record {
  method = method;
  path = path;
  authorization = some (String.◌++◌ "Bearer " key);
  x_api_key = none;
}

abbrev middleware : ProAuthMiddleware
middleware = record { store = some store; auth_enabled = true; exclude_paths = "/health" ∷ [] }

ann_reads :
    (dispatch plain up "now" (request "GET" "/api/v1/tools" "plt_ann_1") middleware).0
    ≡ handed (some ann)
unfolding dispatch extract_api_key authenticate validate_key find_key get_value check_principal
    get_required_scope wildcard_scopes fits_parts split_at ends_with default_scopes lacks
    has_any_scope has_scope same_scope any lookup truthy join prepend
ann_reads = refl

-- A disabled principal is told that its key is unknown.
bob_unknown :
    (dispatch plain up "now" (request "GET" "/api/v1/tools" "plt_bob_1") middleware).0
    ≡ unauthorized
unfolding dispatch extract_api_key authenticate validate_key find_key get_value check_principal any
    lookup truthy join
bob_unknown = refl

-- The table has no pattern for the path of one principal.
delete_needs : get_required_scope "DELETE" "/api/v1/principals/bob" ≡ Scope.execute ∷ []
unfolding get_required_scope wildcard_scopes fits_parts split_at ends_with default_scopes lookup
    join prepend mem
delete_needs = refl

-- With Redis down a new key is returned that is not stored.
rotated : rotate_key plain down "plt_ann_2" "ann" store ≡ (some "plt_ann_2", store)
unfolding rotate_key set_value lookup
rotated = refl

dispatch-IsJustified_example :
    IsJustified plain up
      (request "POST" "/api/v1/workflows" "plt_ann_1")
      middleware
      (dispatch plain up "now" (request "POST" "/api/v1/workflows" "plt_ann_1") middleware).0
dispatch-IsJustified_example =
    dispatch-IsJustified plain up (request "POST" "/api/v1/workflows" "plt_ann_1") middleware "now"

filter_tools_by_principal-listed_example :
    (can_access_tool (some "mail") (some ann) (some ("mail" ∷ "web" ∷ [])) ≡ (
      can_access_server ann.tool_access "mail"
      && bridge_allows (some ("mail" ∷ "web" ∷ [])) "mail"))
    × (filter_tools_by_principal (search ∷ []) (some ann) (some ("mail" ∷ "web" ∷ []))
        ≡ select (listed ann (some ("mail" ∷ "web" ∷ []))) (search ∷ []))
filter_tools_by_principal-listed_example =
    filter_tools_by_principal-listed (search ∷ []) ann (some ("mail" ∷ "web" ∷ [])) "mail"
