-- ===== src/Telemetry.antt =====
-- `MemoryTelemetryStore` of src/ploston_core/telemetry/store/memory.py. The lock serialises the
-- operations; times are numbers, and a missing start time is before all others.
pub mod Recent
pub mod Pages
pub mod Stats
use ploston_core.Prelude.{
  ℕ, suc, ◌+◌, ◌-◌, ◌*◌, String, Bool, true, false, ◌&&◌, ◌||◌, not, Option, none, some, List, [],
  ◌∷◌, ◌++◌, map, ◌==◌, ltb, leb, nat_eq, length, select, or_else, is_some, truthy, if◌then◌else◌,
}
use ploston_core.Prelude.Assoc.{Assoc, lookup, insert, erase, values, keys}

pub data ExecutionType : Type 0 where
  workflow direct : ExecutionType

pub data RecordStatus : Type 0 where
  pending running completed failed cancelled : RecordStatus

pub record ToolCallRecord : Type 0 where
  pub tool_name : String
  pub has_error : Bool

-- A record, with the tool calls of its steps in order.
pub record ExecutionRecord : Type 0 where
  pub execution_id : String
  pub execution_type : ExecutionType
  pub workflow_id : Option String
  pub tool_name : Option String
  pub status : RecordStatus
  pub started_at : Option ℕ
  pub caller_id : Option String
  pub session_id : Option String
  pub tool_calls : List ToolCallRecord

-- `_records` is an `OrderedDict`, the oldest record first.
pub record Store : Type 0 where
  pub max_records : ℕ
  pub records : Assoc ExecutionRecord

-- `while len(self._records) > self._max_records: self._records.popitem(last=False)`
unfoldable pub evict : {V : Type 0} → ℕ → Assoc V → Assoc V
evict limit [] = []
evict limit (e ∷ d) = let rest = evict limit d in if ltb limit (length (e ∷ d)) then rest else e ∷ d

-- `move_to_end` and the assignment: the record comes last.
unfoldable pub put_last : {V : Type 0} → String → V → Assoc V → Assoc V
put_last k v d = erase k d ++ (k, v) ∷ []

unfoldable pub save_execution : ExecutionRecord → Store → Store
save_execution r s = record s {
  records = evict s.max_records (put_last r.execution_id r s.records);
}

unfoldable pub get_execution : String → Store → Option ExecutionRecord
get_execution id s = lookup id s.records

unfoldable pub delete_execution : String → Store → Bool × Store
delete_execution id s =
    if is_some (lookup id s.records)
    then (true, record s { records = erase id s.records })
    else (false, s)

unfoldable pub is_before : ℕ → ExecutionRecord → Bool
is_before cutoff r = elim r.started_at [ none ↦ false | some t ↦ ltb t cutoff ]

unfoldable pub is_after : ℕ → ExecutionRecord → Bool
is_after cutoff r = elim r.started_at [ none ↦ false | some t ↦ ltb cutoff t ]

-- `delete_before`: the records that stay, and the number of the others.
unfoldable pub split_before : ℕ → Assoc ExecutionRecord → Assoc ExecutionRecord × ℕ
split_before cutoff [] = ([], 0)
split_before cutoff ((id, r) ∷ d) =
    let (kept, n) = split_before cutoff d in
    if is_before cutoff r then (kept, n + 1) else ((id, r) ∷ kept, n)

unfoldable pub delete_before : ℕ → Store → ℕ × Store
delete_before cutoff s =
    let (kept, n) = split_before cutoff s.records in (n, record s { records = kept })

unfoldable pub same_type : ExecutionType → ExecutionType → Bool
same_type workflow workflow = true
same_type direct direct = true
same_type _ _ = false

unfoldable pub same_status : RecordStatus → RecordStatus → Bool
same_status RecordStatus.pending RecordStatus.pending = true
same_status RecordStatus.running RecordStatus.running = true
same_status RecordStatus.completed RecordStatus.completed = true
same_status RecordStatus.failed RecordStatus.failed = true
same_status RecordStatus.cancelled RecordStatus.cancelled = true
same_status _ _ = false

-- The arguments of `list_executions` that filter.
pub record Query : Type 0 where
  pub execution_type : Option ExecutionType
  pub workflow_id : Option String
  pub tool_name : Option String
  pub status : Option RecordStatus
  pub since : Option ℕ
  pub until : Option ℕ
  pub caller_id : Option String
  pub session_id : Option String

-- A filter by a text; the empty text filters nothing.
abbrev pub text_passes : Option String → Option String → Bool
text_passes wanted value =
    if truthy wanted then is_some value && or_else value "" == or_else wanted "" else true

abbrev pub passes : {A : Type 0} → Option A → (A → Bool) → Bool
passes none test = true
passes (some a) test = test a

unfoldable pub matches : Query → ExecutionRecord → Bool
matches q r =
    passes q.execution_type (λ t. same_type r.execution_type t)
    && text_passes q.workflow_id r.workflow_id
    && text_passes q.tool_name r.tool_name
    && passes q.status (λ t. same_status r.status t)
    && passes q.since (λ t. not (is_before t r))
    && passes q.until (λ t. not (is_after t r))
    && text_passes q.caller_id r.caller_id
    && text_passes q.session_id r.session_id

-- `r.started_at or datetime.min`
abbrev pub start_key : ExecutionRecord → ℕ
start_key r = elim r.started_at [ none ↦ 0 | some t ↦ t + 1 ]

-- The stable sort by start time, the latest first.
unfoldable pub place_record : ExecutionRecord → List ExecutionRecord → List ExecutionRecord
place_record r [] = r ∷ []
place_record r (q ∷ qs) =
    if leb (start_key q) (start_key r) then r ∷ q ∷ qs else q ∷ place_record r qs

unfoldable pub sort_records : List ExecutionRecord → List ExecutionRecord
sort_records [] = []
sort_records (r ∷ rs) = place_record r (sort_records rs)

unfoldable pub drop {ℓ} : {A : Type ℓ} → ℕ → List A → List A
drop n [] = []
drop n (x ∷ xs) = let rest = drop (n - 1) xs in if nat_eq n 0 then x ∷ xs else rest

unfoldable pub take {ℓ} : {A : Type ℓ} → ℕ → List A → List A
take n [] = []
take n (x ∷ xs) = let rest = take (n - 1) xs in if nat_eq n 0 then [] else x ∷ rest

-- `filtered[start:end]` for a page and its size; page 0 ends at 0 and is empty.
unfoldable pub page_of {ℓ} : {A : Type ℓ} → ℕ → ℕ → List A → List A
page_of page page_size xs =
    if nat_eq page 0 then [] else take page_size (drop ((page - 1) * page_size) xs)

unfoldable pub list_executions : Query → ℕ → ℕ → Store → List ExecutionRecord × ℕ
list_executions q page page_size s =
    let filtered = sort_records (select (matches q) (values s.records)) in
    (page_of page page_size filtered, length filtered)
