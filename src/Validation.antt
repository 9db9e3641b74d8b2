-- ===== src/Validation.antt =====
-- src/ploston_core/types/validation.py: the results of validations.
use ploston_core.Prelude.{ℕ, String, Bool, false, Option, List, [], ◌∷◌}

pub record ValidationIssue : Type 0 where
  pub path : String
  pub message : String
  pub severity : String
  pub line : Option ℕ

pub record ValidationResult : Type 0 where
  pub valid : Bool
  pub errors : List ValidationIssue
  pub warnings : List ValidationIssue

-- `__post_init__`: with errors it is not valid.
unfoldable pub post_init : ValidationResult → ValidationResult
post_init r = elim r.errors [ [] ↦ r | (e ∷ es) ↦ record r { valid = false } ]
