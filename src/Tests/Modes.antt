-- ===== src/Tests/Modes.antt =====
-- A mode manager with one callback.
use ploston_core.Prelude.{◌≡◌, refl, true, some, List, [], ◌∷◌}
use ploston_core.Errors.{ok}
use ploston_core.Modes.{
  Mode, ModeManager, set_mode, restore_mode, on_mode_change, remove_first,
  remove_mode_change_callback, call_all, same_mode, increment_running_workflows,
  decrement_running_workflows,
}
use ploston_core.Modes.Notices.{
  Operation, set, restored, started, finished, subscribed, unsubscribed, step, run, told, times,
  IsTold, run-IsTold,
}

abbrev manager : ModeManager
manager = record {
  mode = Mode.configuration;
  connected = true;
  writes = [];
  callbacks = 4 ∷ 7 ∷ [];
  running_workflow_count = 0;
  calls = [];
}

abbrev operations : List Operation
operations =
    set Mode.running
    ∷ set Mode.running
    ∷ finished
    ∷ subscribed 9
    ∷ restored (ok (some "DONE"))
    ∷ set Mode.running
    ∷ unsubscribed 4
    ∷ started
    ∷ set Mode.configuration
    ∷ []

told_both :
    told 7 (run operations manager).calls ≡ Mode.running ∷ Mode.running ∷ Mode.configuration ∷ []
unfolding run step restore_mode on_mode_change remove_mode_change_callback remove_first set_mode
    same_mode call_all told increment_running_workflows decrement_running_workflows
told_both = refl

run-IsTold_example : IsTold 7 operations manager (run operations manager)
unfolding times
run-IsTold_example = run-IsTold 7 operations manager refl refl
