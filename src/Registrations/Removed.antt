-- ===== src/Registrations/Removed.antt =====
-- What unregistering does to the files after a start without Redis.
use ploston_core.Prelude.{
  ℕ, ◌+◌, ◌≡◌, refl, sym, ap, ◌∙◌, inl, inr, String, true, false, Option, none, some, List, [], ◌∷◌,
  ◌++◌, ◌==◌, eq_refl, ltb, Bool-cases, Option-cases,
}
use ploston_core.Prelude.Assoc.{lookup, insert, erase, lookup-insert}
use ploston_core.Errors.{Result, ok, err}
use ploston_core.Workflow.{WorkflowDefinition}
use ploston_core.Registrations.{
  WorkflowEntry, WorkflowRegistry, delete_persisted, run_task, run_all, settle, start_task,
  fire_tools_changed, update_metrics, check_workflow, new_entry, store, register, unregister,
}
use ploston_core.Registrations.Yaml.{
  set_source, registered_from, register_parsed, register_from_yaml,
}
use ploston_core.Registrations.Starting.{finish, load_all, initialize, or_none}
use ploston_core.Registrations.Accepted.{check_registrable-cases, fire-workflows}

-- All entries come from files, and the rest is as before.
pub record IsFromFiles (s t : WorkflowRegistry) : Type 0 where
  pub from_files :
      (k : String) (e : WorkflowEntry) → lookup k t.workflows ≡ some e → e.source ≡ "file"
  pub same_files : t.files ≡ s.files
  pub same_tasks : t.tasks ≡ s.tasks
  pub same_connected : t.connected ≡ s.connected

fire-rest :
    (s : WorkflowRegistry)
    → ((fire_tools_changed (update_metrics s)).files ≡ s.files)
      × ((fire_tools_changed (update_metrics s)).tasks ≡ s.tasks)
      × ((fire_tools_changed (update_metrics s)).connected ≡ s.connected)
unfolding fire_tools_changed update_metrics
fire-rest s = elim (Bool-cases s.listening) [
  | inl on ↦ simp on (refl, refl, refl)
  | inr off ↦ simp off (refl, refl, refl)
]

abbrev source_or : String → Option WorkflowEntry → String
source_or text none = text
source_or text (some e) = e.source

set_source-IsFromFiles :
    (now : String) (w : WorkflowDefinition) (s t : WorkflowRegistry)
    → IsFromFiles s t
    → IsFromFiles s (set_source w.name "file" (fire_tools_changed (update_metrics (store now w t))))
unfolding set_source
set_source-IsFromFiles now w s t v =
    let u = fire_tools_changed (update_metrics (store now w t)) in
    let marked = record (new_entry now w) { source = "file" } in
    let (files, tasks, connected) = fire-rest (store now w t) in
    let stored : lookup w.name u.workflows ≡ some (new_entry now w) =
      ap (lookup w.name) (fire-workflows (store now w t))
      ∙ lookup-insert w.name w.name (new_entry now w) t.workflows
      ∙ rw (eq_refl w.name) refl in
    rw (set_source, stored)
      (record {
        from_files = λ k e at.
            let changed = lookup-insert w.name k marked u.workflows in
            let before =
              ap (lookup k) (fire-workflows (store now w t))
              ∙ lookup-insert w.name k (new_entry now w) t.workflows in
            elim (Bool-cases (w.name == k)) [
              | inl same ↦
                  let there : lookup k (insert w.name marked u.workflows) ≡ some marked =
                    changed ∙ rw same refl in
                  ap (source_or "file") (sym at ∙ there)
              | inr other ↦
                  let kept : lookup k u.workflows ≡ lookup k t.workflows = before ∙ rw other refl in
                  let left : lookup k (insert w.name marked u.workflows) ≡ lookup k u.workflows =
                    changed ∙ rw other refl in
                  v.from_files k e (sym kept ∙ sym left ∙ at)
            ];
        same_files = files ∙ v.same_files;
        same_tasks = tasks ∙ v.same_tasks;
        same_connected = connected ∙ v.same_connected;
      })

registered-IsFromFiles :
    (now text : String) (w : WorkflowDefinition) (s t : WorkflowRegistry)
    → IsFromFiles s t
    → IsFromFiles s (registered_from w text true false (register now w false t)).1
unfolding register check_workflow registered_from
registered-IsFromFiles now text w s t v = elim (check_registrable-cases w.name t) [
  | inr (raised, refused, taken) ↦ rw (register, refused) v
  | inl (accepted, free) ↦ rw (register, accepted) (set_source-IsFromFiles now w s t v)
]

parsed-IsFromFiles :
    (now text : String) (r : Result WorkflowDefinition) (s t : WorkflowRegistry)
    → IsFromFiles s t
    → IsFromFiles s (register_parsed now text true false false r t).1
parsed-IsFromFiles now text (err raised) s t v = v
parsed-IsFromFiles now text (ok w) s t v = registered-IsFromFiles now text w s t v

finish-IsFromFiles :
    (count : ℕ) (s t : WorkflowRegistry) → IsFromFiles s t → IsFromFiles s (finish count t).1
unfolding fire_tools_changed update_metrics
finish-IsFromFiles count s t v = elim (Bool-cases (ltb 0 count)) [
  | inr silent ↦ simp silent (record {
    from_files = v.from_files;
    same_files = v.same_files;
    same_tasks = v.same_tasks;
    same_connected = v.same_connected;
  })
  | inl loud ↦ elim (Bool-cases t.listening) [
    | inl on ↦
        simp (loud, on)
          (record {
            from_files = v.from_files;
            same_files = v.same_files;
            same_tasks = v.same_tasks;
            same_connected = v.same_connected;
          })
    | inr off ↦
        simp (loud, off)
          (record {
            from_files = v.from_files;
            same_files = v.same_files;
            same_tasks = v.same_tasks;
            same_connected = v.same_connected;
          })
  ]
]

empty_lookup : (k : String) (e : WorkflowEntry) → lookup k [] ≡ some e → e.source ≡ "file"
unfolding lookup
empty_lookup k e h = cc

module _ (parse_workflow_yaml : String → Result WorkflowDefinition) (now : String) where
  loaded-IsFromFiles :
      (text : String) (s t : WorkflowRegistry)
      → IsFromFiles s t
      → IsFromFiles s (register_from_yaml parse_workflow_yaml now text true false false t).1
  unfolding register_from_yaml
  loaded-IsFromFiles text s t v = parsed-IsFromFiles now text (parse_workflow_yaml text) s t v

  load_all-IsFromFiles :
      (texts : List String) (s t : WorkflowRegistry)
      → IsFromFiles s t
      → IsFromFiles s (load_all parse_workflow_yaml now true texts t).1
  unfolding load_all
  load_all-IsFromFiles [] s t v = v
  load_all-IsFromFiles (text ∷ texts) s t v =
      load_all-IsFromFiles texts s
        (register_from_yaml parse_workflow_yaml now text true false false t).1
        (loaded-IsFromFiles text s t v)

  initialize-IsFromFiles :
      (files : Option (List String)) (stored : List String) (s : WorkflowRegistry)
      → s.workflows ≡ []
      → s.connected ≡ false
      → IsFromFiles s (initialize parse_workflow_yaml now files stored s).1
  unfolding initialize
  initialize-IsFromFiles files stored s none_yet off =
      let (count, t) = load_all parse_workflow_yaml now true (or_none files) s in
      let start : IsFromFiles s s = record {
        from_files = λ k e at. empty_lookup k e (sym (ap (lookup k) none_yet) ∙ at);
        same_files = refl;
        same_tasks = refl;
        same_connected = refl;
      } in
      simp off (finish-IsFromFiles (count + 0) s t (load_all-IsFromFiles (or_none files) s s start))

-- What a task does to the files where the entry came from a file.
unregister-keeps :
    (name : String) (s : WorkflowRegistry)
    → s.tasks ≡ []
    → ((e : WorkflowEntry) → lookup name s.workflows ≡ some e → e.source ≡ "file")
    → (settle (unregister name s).1).files ≡ s.files
unfolding unregister run_all run_task
unregister-keeps name s idle from_file = elim (Option-cases (lookup name s.workflows)) [
  | inl missing ↦ rw (unregister, missing) (simp idle refl)
  | inr (e, found) ↦
      let task = delete_persisted name e.source in
      let left = record s { workflows = erase name s.workflows } in
      let u = fire_tools_changed (update_metrics (start_task task left)) in
      let (files, tasks, connected) = fire-rest (start_task task left) in
      let pending : u.tasks ≡ delete_persisted name "file" ∷ [] =
        tasks
        ∙ ap (λ ts. ts ++ task ∷ []) idle
        ∙ ap (λ source. delete_persisted name source ∷ []) (from_file e found) in
      rw (unregister, found) (simp pending files)
]

-- After a start without Redis every workflow counts as one of a file, also those that the API
-- persisted: unregistering any of them leaves all files as they were.
pub unregister-keeps_files :
    (parse_workflow_yaml : String → Result WorkflowDefinition) (now name : String)
    (files : Option (List String)) (stored : List String) (s : WorkflowRegistry)
    → s.workflows ≡ []
    → s.connected ≡ false
    → s.tasks ≡ []
    → (settle (unregister name (initialize parse_workflow_yaml now files stored s).1).1).files
      ≡ s.files
unregister-keeps_files parse_workflow_yaml now name files stored s empty off idle =
    let v = initialize-IsFromFiles parse_workflow_yaml now files stored s empty off in
    let t = (initialize parse_workflow_yaml now files stored s).1 in
    unregister-keeps name t (v.same_tasks ∙ idle) (v.from_files name) ∙ v.same_files
