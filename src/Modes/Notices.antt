-- ===== src/Modes/Notices.antt =====
-- What a callback of the `ModeManager` is told over its life.
use mathlib.Core.Path.{subst}
use mathlib.Core.List.{append-nil, append_assoc}
use ploston_core.Prelude.{
  ℕ, ◌+◌, ◌≡◌, refl, sym, ap, ◌∙◌, ◌≢◌, ◌⊎◌, String, Bool, true, false, not, ◌&&◌, ◌==◌, Option,
  none, some, List, [], ◌∷◌, ◌++◌, nat_eq, arith, if◌then◌else◌, Bool-cases, inl, inr,
}
use ploston_core.Errors.{Result, ok, err}
use ploston_core.Modes.{
  Mode, same_mode, ModeManager, call_all, set_mode, mode_of, restore_mode, on_mode_change,
  remove_first, remove_mode_change_callback, increment_running_workflows,
  decrement_running_workflows,
}

-- The calls of a manager. `restored` has what Redis returns or raises.
pub data Operation : Type 0 where
  set : Mode → Operation
  restored : Result (Option String) → Operation
  started finished : Operation
  subscribed unsubscribed : ℕ → Operation

unfoldable pub step : Operation → ModeManager → ModeManager
step (set m) s = set_mode m s
step (restored r) s = (restore_mode r s).1
step started s = increment_running_workflows s
step finished s = decrement_running_workflows s
step (subscribed d) s = on_mode_change d s
step (unsubscribed d) s = (remove_mode_change_callback d s).1

unfoldable pub run : List Operation → ModeManager → ModeManager
run [] s = s
run (o ∷ os) s = run os (step o s)

-- No callback `c` is registered or removed.
abbrev pub spares : ℕ → List Operation → Bool
spares c [] = true
spares c (subscribed d ∷ os) = not (nat_eq c d) && spares c os
spares c (unsubscribed d ∷ os) = not (nat_eq c d) && spares c os
spares c (set m ∷ os) = spares c os
spares c (restored r ∷ os) = spares c os
spares c (started ∷ os) = spares c os
spares c (finished ∷ os) = spares c os

-- The mode behind a restoration: the stored one, if Redis is connected and has one.
abbrev pub restored_mode : Result (Option String) → Bool → Mode → Mode
restored_mode (ok (some text)) true mode = if text == "" then mode else mode_of text
restored_mode _ _ mode = mode

-- What a callback is to be told of the operations from the mode `prior` on, and the mode `now` at
-- their end: of each mode that is set and is not the one at that time, and of nothing else.
abbrev pub IsTrace : Bool → List Operation → Mode → List Mode → Mode → Type 0
IsTrace connected [] prior modes now = (modes ≡ []) × (prior ≡ now)
IsTrace connected (set m ∷ os) prior modes now =
    ((m ≡ prior) × IsTrace connected os prior modes now)
    ⊎ (m ≢ prior) × (rest : List Mode) × (modes ≡ m ∷ rest) × IsTrace connected os m rest now
IsTrace connected (restored r ∷ os) prior modes now =
    IsTrace connected os (restored_mode r connected prior) modes now
IsTrace connected (started ∷ os) prior modes now = IsTrace connected os prior modes now
IsTrace connected (finished ∷ os) prior modes now = IsTrace connected os prior modes now
IsTrace connected (subscribed d ∷ os) prior modes now = IsTrace connected os prior modes now
IsTrace connected (unsubscribed d ∷ os) prior modes now = IsTrace connected os prior modes now

-- The modes that a callback was called with.
unfoldable pub told : ℕ → List (ℕ × Mode) → List Mode
told c [] = []
told c ((d, m) ∷ calls) = let rest = told c calls in if nat_eq c d then m ∷ rest else rest

told-append : (c : ℕ) (xs ys : List (ℕ × Mode)) → told c (xs ++ ys) ≡ told c xs ++ told c ys
unfolding told
told-append c [] ys = refl
told-append c ((d, m) ∷ xs) ys = ground (arith, told-append c xs ys)

-- How often a callback is registered.
unfoldable pub times : ℕ → List ℕ → ℕ
times c [] = 0
times c (d ∷ ds) = (if nat_eq c d then 1 else 0) + times c ds

told-none : (c : ℕ) (cs : List ℕ) (m : Mode) → times c cs ≡ 0 → told c (call_all cs m) ≡ []
unfolding told call_all times
told-none c [] m h = refl
told-none c (d ∷ ds) m h = ground (arith, told-none c ds m)

told-once : (c : ℕ) (cs : List ℕ) (m : Mode) → times c cs ≡ 1 → told c (call_all cs m) ≡ m ∷ []
unfolding told call_all times
told-once c [] m h = absurd (omega arith)
told-once c (d ∷ ds) m h = ground (arith, told-once c ds m, told-none c ds m)

-- What a callback is told from one state to another, where the operations lead.
pub record IsTold (c : ℕ) (os : List Operation) (before after : ModeManager) : Type 0 where
  pub modes : List Mode
  pub told_more : told c after.calls ≡ told c before.calls ++ modes
  pub trace : IsTrace before.connected os before.mode modes after.mode

-- Whether Redis is connected is no matter of an operation.
step-connected : (o : Operation) (s : ModeManager) → (step o s).connected ≡ s.connected
unfolding step set_mode restore_mode increment_running_workflows decrement_running_workflows
    on_mode_change remove_mode_change_callback
step-connected (set m) s = ground arith
step-connected (restored (err e)) s = refl
step-connected (restored (ok none)) s = refl
step-connected (restored (ok (some text))) s = ground arith
step-connected started s = refl
step-connected finished s = refl
step-connected (subscribed d) s = refl
step-connected (unsubscribed d) s = refl

times-append : (c : ℕ) (xs ys : List ℕ) → times c (xs ++ ys) ≡ times c xs + times c ys
unfolding times
times-append c [] ys = omega arith
times-append c (x ∷ xs) ys = ground (arith, times-append c xs ys)

times-remove_first :
    (c d : ℕ) (ds : List ℕ) → nat_eq c d ≡ false → times c (remove_first d ds).1 ≡ times c ds
unfolding times remove_first
times-remove_first c d [] other = refl
times-remove_first c d (x ∷ xs) other = ground (arith, times-remove_first c d xs other)

-- A callback that an operation spares stays registered as often.
step-times :
    (c : ℕ) (o : Operation) (s : ModeManager)
    → spares c (o ∷ []) ≡ true
    → times c (step o s).callbacks ≡ times c s.callbacks
unfolding step set_mode restore_mode increment_running_workflows decrement_running_workflows
    on_mode_change remove_mode_change_callback times
step-times c (set m) s other = ground arith
step-times c (restored (err e)) s other = refl
step-times c (restored (ok none)) s other = refl
step-times c (restored (ok (some text))) s other = ground arith
step-times c started s other = refl
step-times c finished s other = refl
step-times c (subscribed d) s other = ground (arith, times-append c s.callbacks (d ∷ []))
step-times c (unsubscribed d) s other = ground (arith, times-remove_first c d s.callbacks)

restore_mode_lem :
    (r : Result (Option String)) (s : ModeManager)
    → ((restore_mode r s).1.mode ≡ restored_mode r s.connected s.mode)
      × ((restore_mode r s).1.calls ≡ s.calls)
unfolding restore_mode
restore_mode_lem (err e) s = (refl, refl)
restore_mode_lem (ok none) s = (refl, refl)
restore_mode_lem (ok (some text)) s = ground arith

same_mode_iff : (m n : Mode) → ((same_mode m n ≡ true) → m ≡ n) × ((same_mode m n ≡ false) → m ≢ n)
unfolding same_mode
same_mode_iff Mode.configuration Mode.configuration = (λ _. refl, λ h. cc)
same_mode_iff Mode.running Mode.running = (λ _. refl, λ h. cc)
same_mode_iff Mode.configuration Mode.running = (λ h. cc, λ h e. cc)
same_mode_iff Mode.running Mode.configuration = (λ h. cc, λ h e. cc)

module _ (c : ℕ) (os : List Operation) (s t : ModeManager) where
  set-IsTold :
      (m : Mode)
      → times c s.callbacks ≡ 1
      → IsTold c os (set_mode m s) t
      → IsTold c (set m ∷ os) s t
  unfolding set_mode
  set-IsTold m once a = elim (Bool-cases (same_mode m s.mode)) [
    | inl same ↦
        let unchanged : set_mode m s ≡ s = rw same in
        let a' = subst (λ x. IsTold c os x t) unchanged a in
        record {
          modes = a'.modes;
          told_more = a'.told_more;
          trace = inl ((same_mode_iff m s.mode).0 same, a'.trace);
        }
    | inr new ↦
        let s' : ModeManager = record s {
          mode = m;
          writes = if s.connected then s.writes ++ m ∷ [] else s.writes;
          calls = s.calls ++ call_all s.callbacks m;
        } in
        let changed : set_mode m s ≡ s' = rw new in
        let a' = subst (λ x. IsTold c os x t) changed a in
        let one : told c s'.calls ≡ told c s.calls ++ m ∷ [] =
          told-append c s.calls (call_all s.callbacks m)
          ∙ ap (λ l. told c s.calls ++ l) (told-once c s.callbacks m once) in
        record {
          modes = m ∷ a'.modes;
          told_more =
              a'.told_more
              ∙ ap (λ l. l ++ a'.modes) one
              ∙ append_assoc (told c s.calls) (m ∷ []) a'.modes;
          trace = inr ((same_mode_iff m s.mode).1 new, a'.modes, refl, a'.trace);
        }
  ]

  restored-IsTold :
      (r : Result (Option String))
      → IsTold c os (restore_mode r s).1 t
      → IsTold c (restored r ∷ os) s t
  unfolding step
  restored-IsTold r a =
      let (mode, calls) = restore_mode_lem r s in
      record {
        modes = a.modes;
        told_more = a.told_more ∙ ap (λ l. told c l ++ a.modes) calls;
        trace =
            subst (λ k. IsTrace k os (restored_mode r s.connected s.mode) a.modes t.mode)
              (step-connected (restored r) s)
              (subst (λ m. IsTrace (restore_mode r s).1.connected os m a.modes t.mode) mode
                a.trace);
      }

-- A callback that is registered once, and not registered or removed again, is told of mode changes
-- once each, whatever calls of the manager come: exactly of those by `set_mode`, in their order, and
-- not where the mode is set to what it is, nor where it is restored from Redis, which changes it
-- without a notice.
pub run-IsTold :
    (c : ℕ) (os : List Operation) (s : ModeManager)
    → times c s.callbacks ≡ 1
    → spares c os ≡ true
    → IsTold c os s (run os s)
unfolding run step increment_running_workflows decrement_running_workflows on_mode_change
    remove_mode_change_callback
run-IsTold c [] s once others = record {
  modes = [];
  told_more = sym (append-nil (told c s.calls));
  trace = (refl, refl);
}
run-IsTold c (set m ∷ os) s once others =
    set-IsTold c os s (run os (set_mode m s)) m once
      (run-IsTold c os (set_mode m s) (step-times c (set m) s refl ∙ once) others)
run-IsTold c (restored r ∷ os) s once others =
    let s' = (restore_mode r s).1 in
    restored-IsTold c os s (run os s') r
      (run-IsTold c os s' (step-times c (restored r) s refl ∙ once) others)
run-IsTold c (started ∷ os) s once others =
    let a = run-IsTold c os (increment_running_workflows s) once others in
    record { modes = a.modes; told_more = a.told_more; trace = a.trace }
run-IsTold c (finished ∷ os) s once others =
    let a = run-IsTold c os (decrement_running_workflows s) once others in
    record { modes = a.modes; told_more = a.told_more; trace = a.trace }
run-IsTold c (subscribed d ∷ os) s once others =
    let a =
      run-IsTold c os (on_mode_change d s)
        (step-times c (subscribed d) s (ground (arith, others)) ∙ once) (ground (arith, others)) in
    record { modes = a.modes; told_more = a.told_more; trace = a.trace }
run-IsTold c (unsubscribed d ∷ os) s once others =
    let a =
      run-IsTold c os (remove_mode_change_callback d s).1
        (step-times c (unsubscribed d) s (ground (arith, others)) ∙ once)
        (ground (arith, others)) in
    record { modes = a.modes; told_more = a.told_more; trace = a.trace }
