-- ===== src/Auth/Store.antt =====
-- `PrincipalStore` of src/ploston_core/auth/store.py, with `get_value` and `set_value` of
-- src/ploston_core/config/redis_store.py. The values in Redis are a dict of the store; a call of Redis
-- fails at the keys of `fails`, all of them where it is not connected. Keys are made and hashed
-- elsewhere: `Bcrypt` is a parameter, and a new key is an argument.
use ploston_core.Prelude.{
  String, Bool, true, false, ◌&&◌, Option, none, some, List, [], ◌∷◌, ◌==◌, is_some, truthy,
  if◌then◌else◌,
}
use ploston_core.Prelude.Assoc.{Assoc, lookup, insert}
use ploston_core.Prelude.Texts.{join}
use ploston_core.Auth.{Principal}

pub record Bcrypt : Type 0 where
  pub hash_api_key : String → String
  -- Whether a key has a hash.
  pub verify_api_key : String → String → Bool

pub record PrincipalStore : Type 0 where
  pub principals : Assoc Principal
  pub redis : Assoc String

abbrev pub redis_key : String → String → String
redis_key name suffix = join ":" ("principal" ∷ name ∷ suffix ∷ [])

-- A call that fails reads nothing.
unfoldable pub get_value : (String → Bool) → String → PrincipalStore → Option String
get_value fails key s = if fails key then none else lookup key s.redis

-- A call that fails writes nothing and returns `False`.
unfoldable pub set_value :
    (String → Bool) → String → String → PrincipalStore → Bool × PrincipalStore
set_value fails key value s =
    if fails key then (false, s) else (true, record s { redis = insert key value s.redis })

unfoldable pub update_last_used :
    (String → Bool) → String → String → PrincipalStore → PrincipalStore
update_last_used fails now name s = (set_value fails (redis_key name "last_used_at") now s).1

abbrev pub holds_key : Bcrypt → String → Option String → Bool
holds_key bcrypt api_key none = false
holds_key bcrypt api_key (some hash) = truthy (some hash) && bcrypt.verify_api_key api_key hash

-- The loop of `validate_key`: the first enabled principal whose stored hash fits.
unfoldable pub find_key :
    Bcrypt
    → (String → Bool)
    → String
    → List (String × Principal)
    → PrincipalStore
    → Option (String × Principal)
find_key bcrypt fails api_key [] s = none
find_key bcrypt fails api_key ((name, p) ∷ ps) s =
    let rest = find_key bcrypt fails api_key ps s in
    if p.enabled
    then (if holds_key bcrypt api_key (get_value fails (redis_key name "api_key_hash") s)
        then some (name, p)
        else rest)
    else rest

abbrev pub used :
    (String → Bool)
    → String
    → Option (String × Principal)
    → PrincipalStore
    → Option Principal × PrincipalStore
used fails now none s = (none, s)
used fails now (some (name, p)) s = (some p, update_last_used fails now name s)

unfoldable pub validate_key :
    Bcrypt → (String → Bool) → String → String → PrincipalStore → Option Principal × PrincipalStore
validate_key bcrypt fails now api_key s =
    used fails now (find_key bcrypt fails api_key s.principals s) s

-- `rotate_key`, with the new key. What `set_value` returns is not looked at.
unfoldable pub rotate_key :
    Bcrypt → (String → Bool) → String → String → PrincipalStore → Option String × PrincipalStore
rotate_key bcrypt fails api_key name s =
    if is_some (lookup name s.principals)
    then (
      some api_key,
      (set_value fails (redis_key name "api_key_hash") (bcrypt.hash_api_key api_key) s).1,
    )
    else (none, s)

unfoldable pub set_enabled : Bool → String → PrincipalStore → Bool × PrincipalStore
set_enabled enabled name s = elim (lookup name s.principals) [
  | none ↦ (false, s)
  | some p ↦
      (true, record s { principals = insert name (record p { enabled = enabled }) s.principals })
]

abbrev pub disable_principal : String → PrincipalStore → Bool × PrincipalStore
disable_principal = set_enabled false

abbrev pub enable_principal : String → PrincipalStore → Bool × PrincipalStore
enable_principal = set_enabled true

abbrev pub is_text : String → Option String → Bool
is_text text none = false
is_text text (some value) = value == text

-- `_is_bootstrapped`
unfoldable pub is_bootstrapped : (String → Bool) → String → PrincipalStore → Bool
is_bootstrapped fails name s = is_text "true" (get_value fails (redis_key name "bootstrapped") s)

-- `_bootstrap_key`, with the new key: the hash is written, then the mark.
unfoldable pub bootstrap_key :
    Bcrypt → (String → Bool) → String → String → PrincipalStore → String × PrincipalStore
bootstrap_key bcrypt fails api_key name s =
    let t = (set_value fails (redis_key name "api_key_hash") (bcrypt.hash_api_key api_key) s).1 in
    (api_key, (set_value fails (redis_key name "bootstrapped") "true" t).1)

-- `load_from_config`, with the principals that the config makes and the key that each one gets if
-- it needs one: the new keys.
unfoldable pub load_from_config :
    Bcrypt
    → (String → Bool)
    → List (String × Principal × String)
    → PrincipalStore
    → List (String × String) × PrincipalStore
load_from_config bcrypt fails [] s = ([], s)
load_from_config bcrypt fails ((name, p, api_key) ∷ more) s =
    let t = record s { principals = insert name p s.principals } in
    let known = is_bootstrapped fails name t in
    let (made, u) = bootstrap_key bcrypt fails api_key name t in
    let (keys, v) = load_from_config bcrypt fails more (if known then t else u) in
    (if known then keys else (name, made) ∷ keys, v)
