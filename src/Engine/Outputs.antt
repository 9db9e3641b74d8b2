-- ===== src/Engine/Outputs.antt =====
-- `validate_inputs`, `_compute_outputs` and `_extract_from_path` of
-- src/ploston_core/engine/engine.py.
use Prim.Native.Char.{code}
use ploston_core.Prelude.{
  String, true, false, Option, none, some, List, [], ◌∷◌, ◌++◌, ◌==◌, nat_eq, truthy, is_some,
  or_else, if◌then◌else◌,
}
use ploston_core.Prelude.Texts.{prepend}
use ploston_core.Prelude.Assoc.{Assoc, lookup, insert}
use ploston_core.Errors.{Exc, Result, ok, err, ael}
use ploston_core.Value.{Value, get_field}
use ploston_core.Workflow.{InputDefinition, OutputDefinition, WorkflowDefinition}
use ploston_core.Engine.Rendering.{render_output}
use ploston_core.Engine.{ExecutionContext, Backend}

-- The loop of `validate_inputs`: the inputs with the defaults applied, and the names of required
-- inputs that are missing. The defaults are written to the caller's dict.
unfoldable pub check_inputs :
    List InputDefinition → Assoc Value → List String → Assoc Value × List String
check_inputs [] inputs missing = (inputs, missing)
check_inputs (d ∷ defs) inputs missing = elim (is_some (lookup d.name inputs)) [
  | true ↦ check_inputs defs inputs missing
  | false ↦ elim d.default [
    | some v ↦ check_inputs defs (insert d.name v inputs) missing
    | none ↦ check_inputs defs inputs (if d.required then missing ++ d.name ∷ [] else missing)
  ]
]

-- The inputs after the call, and the exception that it raises.
unfoldable pub validate_inputs : WorkflowDefinition → Assoc Value → Assoc Value × Option Exc
unfolding check_inputs
validate_inputs workflow inputs =
    let (inputs', missing) = check_inputs workflow.inputs inputs [] in
    elim missing [ [] ↦ (inputs', none) | _ ↦ (inputs', some (ael "INPUT_INVALID" "")) ]

-- `path.split(".")`
unfoldable pub split_path : String → List String
unfolding prepend
split_path String.[] = "" ∷ []
split_path (String.◌∷◌ c s) =
    let rest = split_path s in if nat_eq (code c) b'.' then "" ∷ rest else prepend c rest

-- One part of the path: an attribute first, then a key of a dict.
unfoldable pub navigate : (Value → String → Option Value) → Value → String → Option Value
unfolding get_field
navigate get_attr (Value.object c fs) part = get_field part fs
navigate get_attr (Value.dict fs) part = elim (get_attr (Value.dict fs) part) [
  | some v ↦ some v
  | none ↦ get_field part fs
]
navigate get_attr v part = get_attr v part

unfoldable pub navigate_all : (Value → String → Option Value) → List String → Value → Value
unfolding navigate
navigate_all get_attr [] v = v
navigate_all get_attr (part ∷ parts) v = elim (navigate get_attr v part) [
  | none ↦ Value.null
  | some next ↦ navigate_all get_attr parts next
]

unfoldable pub extract_parts :
    (Value → String → Option Value) → List String → ExecutionContext → Value
unfolding navigate_all
extract_parts get_attr (root ∷ name ∷ parts) context =
    if root == "steps"
    then elim (lookup name context.step_outputs) [
      | none ↦ Value.null
      | some v ↦ navigate_all get_attr parts v
    ]
    else if root == "inputs"
    then or_else (lookup name context.inputs) Value.null
    else Value.null
extract_parts get_attr _ context = Value.null

unfoldable pub extract_from_path :
    (Value → String → Option Value) → String → ExecutionContext → Value
unfolding split_path extract_parts
extract_from_path get_attr path context = extract_parts get_attr (split_path path) context

module _ {W : Type 0} (b : Backend W) (context : ExecutionContext) where
  unfoldable pub compute_output : OutputDefinition → Result Value
  unfolding extract_from_path
  compute_output d =
      if truthy d.from_path
      then ok (extract_from_path b.get_attr (or_else d.from_path "") context)
      else if truthy d.value
      then render_output b (or_else d.value "") context
      else ok Value.null

  -- `_compute_outputs`; an exception of the template engine is passed on.
  unfoldable pub compute_outputs : List OutputDefinition → Assoc Value → Result (Assoc Value)
  unfolding compute_output
  compute_outputs [] outputs = ok outputs
  compute_outputs (d ∷ defs) outputs = elim (compute_output d) [
    | Result.err e ↦ err e
    | Result.ok v ↦ compute_outputs defs (insert d.name v outputs)
  ]
