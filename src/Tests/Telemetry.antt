-- ===== src/Tests/Telemetry.antt =====
-- A small memory store, and the theorems on it.
use ploston_core.Prelude.{
  ℕ, true, ◌≡◌, refl, none, some, List, [], ◌∷◌, String, false, arith, select, truthy,
}
use ploston_core.Prelude.Assoc.{values, erase}
use ploston_core.Telemetry.{
  ExecutionRecord, ExecutionType, RecordStatus, Store, Query, save_execution, evict, put_last,
  list_executions, matches, sort_records, place_record, is_before,
}
use ploston_core.Telemetry.Recent.{save_all}
use ploston_core.Telemetry.Stats.{
  calls_in, stats_of, no_calls, get_tool_call_stats, IsCounted, get_tool_call_stats-IsCounted,
}
use ploston_core.Telemetry.Pages.{pages, filtered, list_executions-pages}

abbrev run_of : String → ℕ → ExecutionRecord
run_of id time = record {
  execution_id = id;
  execution_type = ExecutionType.workflow;
  workflow_id = some "sample";
  tool_name = none;
  status = RecordStatus.completed;
  started_at = some time;
  caller_id = none;
  session_id = none;
  tool_calls = [];
}

abbrev runs : List ExecutionRecord
runs = run_of "a" 1 ∷ run_of "b" 2 ∷ run_of "a" 3 ∷ run_of "c" 4 ∷ []

-- The second save of `a` puts it behind `b`, which is evicted.
kept :
    (save_all runs (record { max_records = 2; records = [] })).records
    ≡ ("a", run_of "a" 3) ∷ ("c", run_of "c" 4) ∷ []
unfolding save_all save_execution evict put_last erase
kept = refl

abbrev store : Store
store = record {
  max_records = 5;
  records = ("a", run_of "a" 3) ∷ ("b", run_of "b" 2) ∷ ("c", run_of "c" 4) ∷ [];
}

abbrev everything : Query
everything = record {
  execution_type = none;
  workflow_id = some "sample";
  tool_name = none;
  status = none;
  since = some 2;
  until = none;
  caller_id = none;
  session_id = none;
}

total : (list_executions everything 2 2 store).1 ≡ 3
unfolding list_executions matches sort_records place_record select truthy is_before
total = refl

list_executions-pages_example : pages everything 2 2 store ≡ filtered everything store
list_executions-pages_example = list_executions-pages everything 2 2 store (omega (arith, total))

abbrev called : Store
called = record {
  max_records = 5;
  records =
      (
        "a",
        record (run_of "a" 3) {
          tool_calls =
              record { tool_name = "search"; has_error = true }
              ∷ record { tool_name = "search"; has_error = false }
              ∷ [];
        },
      )
      ∷ [];
}

get_tool_call_stats-IsCounted_example :
    IsCounted "search"
      (calls_in (some 2) none (values called.records))
      no_calls
      (stats_of "search" (get_tool_call_stats (some 2) none called))
get_tool_call_stats-IsCounted_example = get_tool_call_stats-IsCounted (some 2) none called "search"
