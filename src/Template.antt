-- ===== src/Template.antt =====
-- src/ploston_core/template: the engine that renders the templates of workflows. Parser finds them,
-- Variables and Filters evaluate them, Render is `render`.
-- `Python` holds what the language does with values and numbers: their texts, the conversions, and
-- the attributes of values that are no fields of a dataclass.
pub mod Parser
pub mod Filters
pub mod Variables
pub mod Render
pub mod Agreement
pub mod Replaced
pub mod Braces
pub mod Pieces
pub mod Found
pub mod Mixed
use ploston_core.Prelude.{ℕ, String, Bool, Option}
use ploston_core.Prelude.Int.{ℤ}
use ploston_core.Errors.{Exc, ael, Result}
use ploston_core.Value.{Value, Fields}

pub record Python : Type 0 where
  -- `\w` of a regular expression.
  pub is_word : ℕ → Bool
  -- `str(v)`, `json.dumps(v)`
  pub str : Value → String
  pub dumps : Value → Result String
  -- `int(v)` and `float(v)`, `none` for a ValueError or a TypeError.
  pub to_int : Value → Option Value
  pub to_float : Value → Option Value
  -- `int(s)`, and `float(s)` where the text has a dot, `none` for a ValueError.
  pub int_of : String → Option ℤ
  pub number_of : String → Option Value
  -- `getattr(v, name)` for attributes that are no fields and no methods.
  pub attribute : String → Value → Option Value

pub record TemplateContext : Type 0 where
  pub inputs : Fields
  -- `StepOutput` objects by the ids of the steps.
  pub steps : Fields
  pub config : Fields
  pub execution_id : String
  pub workflow : Option Fields

-- The text is the one of the error's template, which has no place for a detail.
abbrev pub template_error : Exc
template_error = ael "TEMPLATE_ERROR" "Failed to render Jinja2 template"
