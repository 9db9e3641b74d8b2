-- ===== src/Value.antt =====
-- The values of the program's dynamic parts: workflow parameters, step outputs, tool answers and
-- configuration trees. Floats do not occur in what is modelled.
pub mod Compare
use Prim.Native.String.{String}
use mathlib.Core.Bool.{Bool, true, false, not}
use mathlib.Core.Option.{Option, none, some}
use mathlib.Core.List.{List, [], ◌∷◌}
use text.Mathlib.Text.{◌==◌}
use ploston_core.Prelude.{if◌then◌else◌}
use ploston_core.Prelude.Assoc.{Assoc}
use ploston_core.Prelude.Int.{ℤ, is_zero}

mutual
  pub data Value : Type 0 where
    null : Value
    bool : Bool → Value
    int : ℤ → Value
    str : String → Value
    list : Items → Value
    dict : Fields → Value
    -- An object of a class, by the class's name, with its attributes.
    object : String → Fields → Value

  pub data Items : Type 0 where
    nil : Items
    cons : Value → Items → Items

  -- A `dict` with text keys, in insertion order.
  pub data Fields : Type 0 where
    end : Fields
    field : String → Value → Fields → Fields

-- `v[k]` if `k in v`
unfoldable pub get_field : String → Fields → Option Value
get_field k end = none
get_field k (field j v fs) = if j == k then some v else get_field k fs

-- Python's truth value.
unfoldable pub is_truthy : Value → Bool
is_truthy null = false
is_truthy (bool b) = b
is_truthy (int n) = not (is_zero n)
is_truthy (str s) = not (s == "")
is_truthy (list nil) = false
is_truthy (list (cons v vs)) = true
is_truthy (dict end) = false
is_truthy (dict (field k v fs)) = true
is_truthy (object c fs) = true

unfoldable pub list_of_texts : List String → Items
list_of_texts [] = nil
list_of_texts (s ∷ ss) = cons (str s) (list_of_texts ss)

unfoldable pub dict_of : Assoc Value → Fields
dict_of [] = end
dict_of ((k, v) ∷ d) = field k v (dict_of d)

unfoldable pub assoc_of : Fields → Assoc Value
assoc_of end = []
assoc_of (field k v fs) = (k, v) ∷ assoc_of fs

-- The entries of a `dict`.
unfoldable pub entries_of : Value → Assoc Value
unfolding assoc_of
entries_of (dict fs) = assoc_of fs
entries_of _ = []
