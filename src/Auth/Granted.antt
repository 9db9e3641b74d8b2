-- ===== src/Auth/Granted.antt =====
-- What each outcome of the middleware means.
use ploston_core.Prelude.{
  ◌≡◌, refl, ap, ◌⊎◌, inl, inr, String, Bool, true, false, Option, none, some, List, [], ◌∷◌, ◌++◌,
  ◌==◌, or_else, truthy, if◌then◌else◌, Bool-cases,
}
use ploston_core.Prelude.Assoc.{Assoc}
use ploston_core.Auth.{Principal, anonymous_principal}
use ploston_core.Auth.Store.{
  Bcrypt, PrincipalStore, redis_key, get_value, holds_key, find_key, used, validate_key,
}
use ploston_core.Auth.Middleware.{
  Request, ProAuthMiddleware, Outcome, handed, unauthorized, not_configured, forbidden_disabled,
  forbidden_scope, extract_api_key, get_required_scope, lacks, check_principal, authenticate,
  is_excluded, dispatch,
}

module _ (bcrypt : Bcrypt) (fails : String → Bool) (api_key : String) where
  -- A principal of the store is enabled and its stored hash can be read and fits the key.
  pub record IsHolder (p : Principal) (s : PrincipalStore) : Type 0 where
    pub name : String
    pub before : Assoc Principal
    pub after : Assoc Principal
    pub there : s.principals ≡ before ++ (name, p) ∷ after
    pub enabled : p.enabled ≡ true
    pub fits : holds_key bcrypt api_key (get_value fails (redis_key name "api_key_hash") s) ≡ true

  -- No enabled principal's stored hash fits the key.
  abbrev pub NoneFits : List (String × Principal) → PrincipalStore → Type 0
  NoneFits [] s = Unit {0}
  NoneFits ((name, p) ∷ ps) s =
      ((p.enabled ≡ false)
        ⊎ (holds_key bcrypt api_key (get_value fails (redis_key name "api_key_hash") s) ≡ false))
      × NoneFits ps s

  -- What the search finds in the rest of the principals.
  abbrev pub IsFound :
      List (String × Principal) → PrincipalStore → Option (String × Principal) → Type 0
  IsFound ps s none = NoneFits ps s
  IsFound ps s (some (name, p)) =
      (before : Assoc Principal) × (after : Assoc Principal) × (ps ≡ before ++ (name, p) ∷ after)
      × (p.enabled ≡ true)
      × (holds_key bcrypt api_key (get_value fails (redis_key name "api_key_hash") s) ≡ true)

  IsFound-skip :
      (name : String) (p : Principal) (ps : List (String × Principal)) (s : PrincipalStore)
      (o : Option (String × Principal))
      → (p.enabled ≡ false)
        ⊎ (holds_key bcrypt api_key (get_value fails (redis_key name "api_key_hash") s) ≡ false)
      → IsFound ps s o
      → IsFound ((name, p) ∷ ps) s o
  IsFound-skip name p ps s none miss rest = (miss, rest)
  IsFound-skip name p ps s (some (n, q)) miss (before, after, there, enabled, fits) =
      ((name, p) ∷ before, after, ap (λ l. (name, p) ∷ l) there, enabled, fits)

  find_key-IsFound :
      (ps : List (String × Principal)) (s : PrincipalStore)
      → IsFound ps s (find_key bcrypt fails api_key ps s)
  unfolding find_key
  find_key-IsFound [] s = tt
  find_key-IsFound ((name, p) ∷ ps) s =
      let rest = find_key-IsFound ps s in
      let found = find_key bcrypt fails api_key ps s in
      elim (Bool-cases p.enabled) [
        | inr off ↦ simp off (IsFound-skip name p ps s found (inl off) rest)
        | inl on ↦
            elim (Bool-cases
              (holds_key bcrypt api_key (get_value fails (redis_key name "api_key_hash") s))) [
                | inr misses ↦ simp (on, misses) (IsFound-skip name p ps s found (inr misses) rest)
                | inl fit ↦ simp (on, fit) ([], ps, refl, refl, refl)
              ]
      ]

module _ (bcrypt : Bcrypt) (fails : String → Bool) (r : Request) (m : ProAuthMiddleware) where
  -- The key of the request and the store that it is looked up in.
  pub record IsAsked (api_key : String) (s : PrincipalStore) : Type 0 where
    pub included : is_excluded r m ≡ false
    pub enabled : m.auth_enabled ≡ true
    pub presented : extract_api_key r ≡ some api_key
    pub kept : m.store ≡ some s

  pub record IsAuthorized (p : Principal) : Type 0 where
    pub api_key : String
    pub store : PrincipalStore
    pub asked : IsAsked api_key store
    pub holder : IsHolder bcrypt fails api_key p store

  -- What an outcome says of the request.
  abbrev pub IsJustified : Outcome → Type 0
  IsJustified (handed none) = is_excluded r m ≡ true
  IsJustified (handed (some p)) =
      ((is_excluded r m ≡ false) × (m.auth_enabled ≡ false) × (p ≡ anonymous_principal))
      ⊎ IsAuthorized p × (lacks p (get_required_scope r.method r.path) ≡ false)
  IsJustified unauthorized =
      (is_excluded r m ≡ false)
      × (m.auth_enabled ≡ true)
      × ((truthy (extract_api_key r) ≡ false)
          ⊎ (api_key : String) × (s : PrincipalStore) × IsAsked api_key s
            × NoneFits bcrypt fails api_key s.principals s)
  IsJustified not_configured =
      (is_excluded r m ≡ false) × (m.auth_enabled ≡ true) × (m.store ≡ none)
  IsJustified (forbidden_disabled name) = ⊥
  IsJustified (forbidden_scope name scopes) =
      (p : Principal) × IsAuthorized p
      × (p.name ≡ name)
      × (scopes ≡ get_required_scope r.method r.path)
      × (lacks p scopes ≡ true)

  check_principal-IsJustified :
      (p : Principal) → IsAuthorized p → p.enabled ≡ true → IsJustified (check_principal r (some p))
  unfolding check_principal
  check_principal-IsJustified p a on =
      elim (Bool-cases (lacks p (get_required_scope r.method r.path))) [
        | inl short ↦ simp (on, short) (p, a, refl, refl, short)
        | inr fine ↦ simp (on, fine) (inr (a, refl))
      ]

  found-IsJustified :
      (api_key : String) (s : PrincipalStore)
      → IsAsked api_key s
      → (o : Option (String × Principal)) → IsFound bcrypt fails api_key s.principals s o
      → (now : String) → IsJustified (check_principal r (used fails now o s).0)
  unfolding check_principal
  found-IsJustified api_key s asked none nobody now =
      (asked.included, asked.enabled, inr (api_key, s, asked, nobody))
  found-IsJustified api_key s asked (some (name, p)) (before, after, there, on, fit) now =
      check_principal-IsJustified p
        (record {
          api_key = api_key;
          store = s;
          asked = asked;
          holder = record {
            name = name;
            before = before;
            after = after;
            there = there;
            enabled = on;
            fits = fit;
          };
        })
        on

  authenticate-IsJustified :
      (now api_key : String) (o : Option PrincipalStore)
      → is_excluded r m ≡ false
      → m.auth_enabled ≡ true
      → extract_api_key r ≡ some api_key
      → m.store ≡ o
      → IsJustified (authenticate bcrypt fails now r api_key o m).0
  unfolding authenticate validate_key
  authenticate-IsJustified now api_key none included enabled presented kept =
      (included, enabled, kept)
  authenticate-IsJustified now api_key (some s) included enabled presented kept =
      found-IsJustified api_key s
        (record { included = included; enabled = enabled; presented = presented; kept = kept })
        (find_key bcrypt fails api_key s.principals s)
        (find_key-IsFound bcrypt fails api_key s.principals s) now

  keyed-IsJustified :
      (now : String) (o : Option String)
      → is_excluded r m ≡ false
      → m.auth_enabled ≡ true
      → extract_api_key r ≡ o
      → IsJustified
          (if truthy o
            then authenticate bcrypt fails now r (or_else o "") m.store m
            else (unauthorized, m)).0
  unfolding truthy
  keyed-IsJustified now none included enabled presented =
      (included, enabled, inl (rw presented refl))
  keyed-IsJustified now (some key) included enabled presented = elim (Bool-cases (key == "")) [
    | inl blank ↦ simp blank (included, enabled, inl (rw presented (rw blank refl)))
    | inr given ↦
        simp given (authenticate-IsJustified now key m.store included enabled presented refl)
  ]

-- Each outcome of the middleware has its reason. A request is handed on only if its path is
-- excluded, or without authentication as the anonymous principal, or for an enabled principal of
-- the store whose hash fits the presented key and which has one of the required scopes. It is
-- unauthorized only if it presents no key or no enabled principal's hash fits the key, and
-- forbidden only for a scope that the holder of the key lacks. No request is refused for a
-- disabled principal.
pub dispatch-IsJustified :
    (bcrypt : Bcrypt) (fails : String → Bool) (r : Request) (m : ProAuthMiddleware) (now : String)
    → IsJustified bcrypt fails r m (dispatch bcrypt fails now r m).0
unfolding dispatch
dispatch-IsJustified bcrypt fails r m now = elim (Bool-cases (is_excluded r m)) [
  | inl excluded ↦ simp excluded refl
  | inr included ↦ elim (Bool-cases m.auth_enabled) [
    | inr off ↦ simp (included, off) (inl (refl, refl, refl))
    | inl on ↦
        simp (included, on)
          (keyed-IsJustified bcrypt fails r m now (extract_api_key r) included on refl)
  ]
]
