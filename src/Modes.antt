-- ===== src/Modes.antt =====
-- `ModeManager` of src/ploston_core/config/mode_manager.py. A callback is a number; the calls of
-- callbacks are logged, what they raise is dropped, and they do not call the manager themselves. The write of the mode to Redis is a task that
-- is started and not awaited: the started writes are logged.
pub mod Notices
use ploston_core.Prelude.{
  ℕ, suc, ◌+◌, ◌-◌, String, Bool, true, false, Option, none, some, List, [], ◌∷◌, ◌++◌, ◌==◌,
  nat_eq, if◌then◌else◌,
}
use ploston_core.Errors.{Exc, Result, ok, err}

pub data Mode : Type 0 where
  configuration running : Mode

unfoldable pub same_mode : Mode → Mode → Bool
same_mode Mode.configuration Mode.configuration = true
same_mode Mode.running Mode.running = true
same_mode _ _ = false

pub record ModeManager : Type 0 where
  pub mode : Mode
  -- Whether there is a Redis store that is connected.
  pub connected : Bool
  pub writes : List Mode
  pub callbacks : List ℕ
  pub running_workflow_count : ℕ
  -- The calls of callbacks, the first one first.
  pub calls : List (ℕ × Mode)

unfoldable pub call_all : List ℕ → Mode → List (ℕ × Mode)
call_all [] mode = []
call_all (c ∷ cs) mode = (c, mode) ∷ call_all cs mode

unfoldable pub set_mode : Mode → ModeManager → ModeManager
set_mode mode s = if same_mode mode s.mode then s else record s {
  mode = mode;
  writes = if s.connected then s.writes ++ mode ∷ [] else s.writes;
  calls = s.calls ++ call_all s.callbacks mode;
}

-- The mode of a stored text: "RUNNING", and any other text.
abbrev pub mode_of : String → Mode
mode_of text = if text == "RUNNING" then Mode.running else Mode.configuration

-- `restore_mode_from_redis`, with what `get_mode` returns or raises. No callback is called.
unfoldable pub restore_mode : Result (Option String) → ModeManager → Bool × ModeManager
restore_mode (err e) s = (false, s)
restore_mode (ok none) s = (false, s)
restore_mode (ok (some text)) s =
    if s.connected
    then (if text == "" then (false, s) else (true, record s { mode = mode_of text }))
    else (false, s)

unfoldable pub on_mode_change : ℕ → ModeManager → ModeManager
on_mode_change callback s = record s { callbacks = s.callbacks ++ callback ∷ [] }

-- `list.remove`: the first of the equal members, and whether there is one.
unfoldable pub remove_first : ℕ → List ℕ → Bool × List ℕ
remove_first c [] = (false, [])
remove_first c (d ∷ ds) =
    let (found, rest) = remove_first c ds in if nat_eq c d then (true, ds) else (found, d ∷ rest)

unfoldable pub remove_mode_change_callback : ℕ → ModeManager → Bool × ModeManager
remove_mode_change_callback callback s =
    let (found, rest) = remove_first callback s.callbacks in (found, record s { callbacks = rest })

unfoldable pub increment_running_workflows : ModeManager → ModeManager
increment_running_workflows s = record s { running_workflow_count = s.running_workflow_count + 1 }

-- `max(0, count - 1)`: subtraction on ℕ stops at 0.
unfoldable pub decrement_running_workflows : ModeManager → ModeManager
decrement_running_workflows s = record s { running_workflow_count = s.running_workflow_count - 1 }

unfoldable pub can_start_workflow : ModeManager → Bool
can_start_workflow s = same_mode s.mode Mode.running
