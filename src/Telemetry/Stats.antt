-- ===== src/Telemetry/Stats.antt =====
-- `get_tool_call_stats` of src/ploston_core/telemetry/store/memory.py.
use ploston_core.Prelude.{
  ℕ, ◌+◌, String, ◌≡◌, Bool, true, ◌&&◌, not, Option, List, [], ◌∷◌, ◌++◌, ◌==◌, arith, eq_iff,
  or_else, Bool-cases, inl, inr, if◌then◌else◌,
}
use ploston_core.Prelude.Assoc.{Assoc, lookup, insert, values, lookup-insert}
use ploston_core.Telemetry.{ToolCallRecord, ExecutionRecord, Store, is_before, is_after, passes}

pub record ToolStats : Type 0 where
  pub total : ℕ
  pub success : ℕ
  pub error : ℕ

abbrev pub no_calls : ToolStats
no_calls = record { total = 0; success = 0; error = 0 }

unfoldable pub count_call : ToolCallRecord → ToolStats → ToolStats
count_call c x =
    if c.has_error
    then record x { total = x.total + 1; error = x.error + 1 }
    else record x { total = x.total + 1; success = x.success + 1 }

-- The innermost loop, over tool calls.
unfoldable pub count_calls : List ToolCallRecord → Assoc ToolStats → Assoc ToolStats
count_calls [] stats = stats
count_calls (c ∷ cs) stats =
    count_calls cs
      (insert c.tool_name (count_call c (or_else (lookup c.tool_name stats) no_calls)) stats)

-- Whether a record is passed over by its start time.
unfoldable pub in_range : Option ℕ → Option ℕ → ExecutionRecord → Bool
in_range since until r =
    passes since (λ t. not (is_before t r)) && passes until (λ t. not (is_after t r))

unfoldable pub count_records :
    Option ℕ → Option ℕ → List ExecutionRecord → Assoc ToolStats → Assoc ToolStats
count_records since until [] stats = stats
count_records since until (r ∷ rs) stats =
    count_records since until rs
      (if in_range since until r then count_calls r.tool_calls stats else stats)

unfoldable pub get_tool_call_stats : Option ℕ → Option ℕ → Store → Assoc ToolStats
get_tool_call_stats since until s = count_records since until (values s.records) []

-- The calls in range, in order.
unfoldable pub calls_in : Option ℕ → Option ℕ → List ExecutionRecord → List ToolCallRecord
calls_in since until [] = []
calls_in since until (r ∷ rs) =
    let rest = calls_in since until rs in
    if in_range since until r then r.tool_calls ++ rest else rest

-- How many of the calls are of a tool and pass a test.
unfoldable pub number : String → (ToolCallRecord → Bool) → List ToolCallRecord → ℕ
number name p [] = 0
number name p (c ∷ cs) = (if (c.tool_name == name) && p c then 1 else 0) + number name p cs

-- A tool's numbers, with none if it is not listed.
abbrev pub stats_of : String → Assoc ToolStats → ToolStats
stats_of name stats = or_else (lookup name stats) no_calls

-- The numbers of a tool in `after` are those in `before` and those of the calls.
pub record IsCounted (name : String) (calls : List ToolCallRecord) (before after : ToolStats)
    : Type 0 where
  pub total : after.total ≡ before.total + number name (λ c. true) calls
  pub error : after.error ≡ before.error + number name (λ c. c.has_error) calls
  pub success : after.success ≡ before.success + number name (λ c. not c.has_error) calls

number-append :
    (name : String) (p : ToolCallRecord → Bool) (cs ds : List ToolCallRecord)
    → number name p (cs ++ ds) ≡ number name p cs + number name p ds
unfolding number
number-append name p [] ds = omega arith
number-append name p (c ∷ cs) ds = omega (arith, number-append name p cs ds)

stats_of-insert :
    (name j : String) (x : ToolStats) (stats : Assoc ToolStats)
    → stats_of name (insert j x stats) ≡ (if j == name then x else stats_of name stats)
stats_of-insert name j x stats = ground (arith, lookup-insert j name x stats)

count_call-IsCounted :
    (name : String) (c : ToolCallRecord) (stats : Assoc ToolStats)
    → IsCounted name
        (c ∷ [])
        (stats_of name stats)
        (stats_of name (insert c.tool_name (count_call c (stats_of c.tool_name stats)) stats))
unfolding number count_call
count_call-IsCounted name c stats =
    let e = stats_of-insert name c.tool_name (count_call c (stats_of c.tool_name stats)) stats in
    ground (arith, e, eq_iff c.tool_name name)

IsCounted-trans :
    (name : String) (cs ds : List ToolCallRecord) (x y z : ToolStats)
    → IsCounted name cs x y
    → IsCounted name ds y z
    → IsCounted name (cs ++ ds) x z
IsCounted-trans name cs ds x y z a b = record {
  total = omega (arith, a.total, b.total, number-append name (λ c. true) cs ds);
  error = omega (arith, a.error, b.error, number-append name (λ c. c.has_error) cs ds);
  success = omega (arith, a.success, b.success, number-append name (λ c. not c.has_error) cs ds);
}

IsCounted-none : (name : String) (x : ToolStats) → IsCounted name [] x x
unfolding number
IsCounted-none name x = record { total = omega arith; error = omega arith; success = omega arith }

count_calls-IsCounted :
    (name : String) (cs : List ToolCallRecord) (stats : Assoc ToolStats)
    → IsCounted name cs (stats_of name stats) (stats_of name (count_calls cs stats))
unfolding count_calls
count_calls-IsCounted name [] stats = IsCounted-none name (stats_of name stats)
count_calls-IsCounted name (c ∷ cs) stats =
    let next = insert c.tool_name (count_call c (stats_of c.tool_name stats)) stats in
    IsCounted-trans name (c ∷ []) cs (stats_of name stats) (stats_of name next)
      (stats_of name (count_calls cs next)) (count_call-IsCounted name c stats)
      (count_calls-IsCounted name cs next)

count_records-IsCounted :
    (since until : Option ℕ) (name : String) (rs : List ExecutionRecord) (stats : Assoc ToolStats)
    → IsCounted name
        (calls_in since until rs)
        (stats_of name stats)
        (stats_of name (count_records since until rs stats))
unfolding count_records calls_in
count_records-IsCounted since until name [] stats = IsCounted-none name (stats_of name stats)
count_records-IsCounted since until name (r ∷ rs) stats =
    elim (Bool-cases (in_range since until r)) [
      | inl inside ↦
          let next = count_calls r.tool_calls stats in
          rw inside (
            IsCounted-trans name r.tool_calls (calls_in since until rs) (stats_of name stats)
              (stats_of name next) (stats_of name (count_records since until rs next))
              (count_calls-IsCounted name r.tool_calls stats)
              (count_records-IsCounted since until name rs next))
      | inr outside ↦ rw outside (count_records-IsCounted since until name rs stats)
    ]

-- In the statistics, each tool has exactly the numbers of its calls, of its calls with an error and
-- of its calls without one, in the records that the time range does not exclude.
pub get_tool_call_stats-IsCounted :
    (since until : Option ℕ) (s : Store) (name : String)
    → IsCounted name
        (calls_in since until (values s.records))
        no_calls
        (stats_of name (get_tool_call_stats since until s))
unfolding get_tool_call_stats lookup
get_tool_call_stats-IsCounted since until s name =
    count_records-IsCounted since until name (values s.records) []
