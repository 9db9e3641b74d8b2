-- ===== src/Errors.antt =====
-- src/ploston_core/errors: the exceptions that the components raise, and the results of calls that
-- may raise. Of an `AELError` the code is kept, which is what handlers test.
use Prim.Native.String.{String}

pub data Exc : Type 0 where
  -- `AELError(code=...)` with its detail.
  ael : String → String → Exc
  type_error unbound_local value_error : Exc
  -- Any other exception, by its type's name.
  other : String → Exc

-- What a call returns, or the exception that leaves it.
pub data Result {ℓ} (R : Type ℓ) : Type ℓ where
  err : Exc → Result R
  ok : R → Result R

infixl 5 ◌>>=◌
abbrev pub ◌>>=◌ {ℓ κ} : {R : Type ℓ} {S : Type κ} → Result R → (R → Result S) → Result S
err raised >>= next = err raised
ok value >>= next = next value
