-- ===== src/Staged/Settings.antt =====
-- What `get` finds after `set`.
use ploston_core.Value.{Value}
