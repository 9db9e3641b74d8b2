-- ===== src/Auth.antt =====
-- Principals and what they may use: src/ploston_core/auth/models.py. Creation times, key prefixes and
-- the settings that no operation here reads are left out.
pub mod Access
pub mod Store
pub mod Middleware
pub mod Granted
pub mod Permitted
use ploston_core.Prelude.{
  ℕ, String, Bool, true, false, not, Option, List, [], ◌∷◌, mem, select, if◌then◌else◌,
}
use ploston_core.Prelude.Dicts.{any}

pub data Scope : Type 0 where
  read execute write admin : Scope

unfoldable pub same_scope : Scope → Scope → Bool
same_scope Scope.read Scope.read = true
same_scope Scope.execute Scope.execute = true
same_scope Scope.write Scope.write = true
same_scope Scope.admin Scope.admin = true
same_scope _ _ = false

pub data ToolAccessMode : Type 0 where
  all allowlist denylist : ToolAccessMode

pub record ToolAccess : Type 0 where
  pub mode : ToolAccessMode
  pub servers : List String

abbrev pub access_by : ToolAccessMode → List String → String → Bool
access_by ToolAccessMode.all servers server_name = true
access_by ToolAccessMode.allowlist servers server_name = mem server_name servers
access_by ToolAccessMode.denylist servers server_name = not (mem server_name servers)

unfoldable pub can_access_server : ToolAccess → String → Bool
can_access_server a server_name = access_by a.mode a.servers server_name

unfoldable pub filter_servers : ToolAccess → List String → List String
filter_servers a = select (can_access_server a)

pub record Principal : Type 0 where
  pub id : String
  pub name : String
  pub scopes : List Scope
  pub tool_access : ToolAccess
  pub rate_limit : Option ℕ
  pub enabled : Bool

unfoldable pub has_scope : Principal → Scope → Bool
has_scope p scope = any (same_scope scope) p.scopes

-- `bool(self.scopes & scopes)`
unfoldable pub has_any_scope : Principal → List Scope → Bool
has_any_scope p scopes = any (has_scope p) scopes

abbrev pub anonymous_principal : Principal
anonymous_principal = record {
  id = "anon";
  name = "anonymous";
  scopes = Scope.read ∷ Scope.execute ∷ Scope.write ∷ Scope.admin ∷ [];
  tool_access = record { mode = ToolAccessMode.all; servers = [] };
  rate_limit = Option.none;
  enabled = true;
}
