-- ===== src/Runners/Events/Bounds.antt =====
-- The event queues of the `RunnerRegistry` stay within their 64 places.
use ploston_core.Prelude.{ℕ, ◌≤◌, String, List, [], ◌∷◌, arith, length, length-append, or_else}
use ploston_core.Prelude.Assoc.{Assoc, lookup}
use ploston_core.Runners.{Detail, Event}
use ploston_core.Runners.Events.{put_nowait, put_all, fan_out}

abbrev pub IsBounded : (ℕ → List Event) → Type 0
IsBounded queues = (q : ℕ) → length (queues q) ≤ 64

pub put_nowait-IsBounded :
    (q : ℕ) (e : Event) (queues : ℕ → List Event)
    → IsBounded queues
    → IsBounded (put_nowait q e queues)
unfolding put_nowait
put_nowait-IsBounded q e queues h j = ground (arith, h q, h j, length-append (queues q) (e ∷ []))

pub put_all-IsBounded :
    (qs : List ℕ) (e : Event) (queues : ℕ → List Event)
    → IsBounded queues
    → IsBounded (put_all qs e queues)
unfolding put_all
put_all-IsBounded [] e queues h = h
put_all-IsBounded (q ∷ qs) e queues h =
    put_all-IsBounded qs e (put_nowait q e queues) (put_nowait-IsBounded q e queues h)

pub fan_out-IsBounded :
    (runner_id : String) (details : Assoc Detail) (subscribers : Assoc (List ℕ))
    (queues : ℕ → List Event)
    → IsBounded queues
    → IsBounded (fan_out runner_id details subscribers queues)
unfolding fan_out
fan_out-IsBounded runner_id [] subscribers queues h = h
fan_out-IsBounded runner_id ((m, d) ∷ details) subscribers queues h =
    let e : Event = record { mcp_name = m; runner_id = runner_id; detail = d } in
    let qs = or_else (lookup m subscribers) [] in
    fan_out-IsBounded runner_id details subscribers (put_all qs e queues)
      (put_all-IsBounded qs e queues h)
