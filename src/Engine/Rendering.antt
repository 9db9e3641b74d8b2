-- ===== src/Engine/Rendering.antt =====
-- How src/ploston_core/engine calls the template engine: `get_template_context` of types.py, and the
-- three calls of engine.py, over parameters, a `when` expression and an output expression.
use Prim.Native.String.{◌++◌}
use ploston_core.Prelude.{String, some}
use ploston_core.Prelude.Assoc.{Assoc}
use ploston_core.Errors.{Result, ok, ◌>>=◌}
use ploston_core.Value.{Value, end, field, dict_of, entries_of}
use ploston_core.Template.{TemplateContext}
use ploston_core.Template.Render as TemplateEngine
use ploston_core.Engine.{ExecutionContext, Backend}

module _ {W : Type 0} (b : Backend W) where
  unfoldable pub get_template_context : ExecutionContext → TemplateContext
  get_template_context c = record {
    inputs = dict_of c.inputs;
    steps = dict_of c.step_outputs;
    config = b.config;
    execution_id = c.execution_id;
    workflow = some (
        field "name" (Value.str c.workflow.name)
          (field "version" (Value.str c.workflow.version) (field "start_time" b.started_at end)));
  }

  unfoldable pub render_params : Assoc Value → ExecutionContext → Result (Assoc Value)
  render_params params c =
      TemplateEngine.render_params b.python (dict_of params) (get_template_context c) >>= λ v.
      ok (entries_of v)

  -- Its syntax is not validated.
  unfoldable pub render_when : String → ExecutionContext → Result Value
  render_when when_expr c =
      TemplateEngine.render_string b.python (get_template_context c) ("{{ " ++ (when_expr ++ " }}"))

  unfoldable pub render_output : String → ExecutionContext → Result Value
  render_output value c =
      TemplateEngine.render b.python (Value.str value) (get_template_context c) >>= λ r. ok r.value
