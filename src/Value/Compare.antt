-- ===== src/Value/Compare.antt =====
-- Python's `==` on the values of the model. `dict`s are equal with the same keys and equal values in
-- any order, and a `bool` equals the `int` 0 or 1. Objects are compared by class and attributes.
use Prim.Native.Nat.{ℕ, suc}
use mathlib.Core.Bool.{Bool, true, false, ◌&&◌, not}
use text.Mathlib.Text.{◌==◌}
use ploston_core.Prelude.{nat_eq, is_some, or_else, if◌then◌else◌}
use ploston_core.Prelude.Int.{ℤ, pos, negsuc}
use ploston_core.Value.{Value, Items, nil, cons, Fields, end, field, get_field}

unfoldable pub eq_ℤ : ℤ → ℤ → Bool
eq_ℤ (pos m) (pos n) = nat_eq m n
eq_ℤ (negsuc m) (negsuc n) = nat_eq m n
eq_ℤ _ _ = false

abbrev pub int_of : Bool → ℤ
int_of b = if b then pos 1 else pos 0

abbrev pub eq_bool : Bool → Bool → Bool
eq_bool true b = b
eq_bool false b = not b

unfoldable pub size : Fields → ℕ
size end = 0
size (field k v fs) = suc (size fs)

unfoldable mutual
  pub eq_value : Value → Value → Bool
  eq_value Value.null Value.null = true
  eq_value (Value.bool a) (Value.bool b) = eq_bool a b
  eq_value (Value.bool a) (Value.int n) = eq_ℤ (int_of a) n
  eq_value (Value.int m) (Value.bool b) = eq_ℤ m (int_of b)
  eq_value (Value.int m) (Value.int n) = eq_ℤ m n
  eq_value (Value.str s) (Value.str t) = s == t
  eq_value (Value.list xs) (Value.list ys) = eq_items xs ys
  eq_value (Value.dict fs) (Value.dict gs) = nat_eq (size fs) (size gs) && included fs gs
  eq_value (Value.object c fs) (Value.object d gs) =
      c == d && (nat_eq (size fs) (size gs) && included fs gs)
  eq_value _ _ = false

  pub eq_items : Items → Items → Bool
  eq_items nil nil = true
  eq_items (cons x xs) (cons y ys) = eq_value x y && eq_items xs ys
  eq_items _ _ = false

  -- Each field stands in the other dict, with an equal value.
  pub included : Fields → Fields → Bool
  included end gs = true
  included (field k v fs) gs =
      is_some (get_field k gs)
      && (eq_value v (or_else (get_field k gs) Value.null) && included fs gs)
