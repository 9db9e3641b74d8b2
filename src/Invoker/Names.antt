-- ===== src/Invoker/Names.antt =====
-- Tool names with a runner and an MCP: `format_tool_name` and `parse_tool_prefix` of
-- src/ploston_core/runner_management/router.py.
use Prim.Native.Char.{Char, char, code}
use Prim.Native.String
use Prim.Native.String.append
use text.Mathlib.TextEquality.{Char-path}
use ploston_core.Prelude.{
  String, ◌≡◌, refl, sym, ap, ◌∙◌, Bool, true, false, not, Option, none, some, List, [], ◌∷◌, arith,
  nat_eq, is_some, if◌then◌else◌, Bool-cases, inl, inr,
}
use ploston_core.Prelude.Texts.{join, prepend}
use ploston_core.Runners.Names.{prepend_held, split_from, split_name}
use ploston_core.Invoker.{parse_tool_prefix, format_tool_name}

-- No "__" stands in the text, or begins in it at its end; `held` says that an underscore stands
-- before it.
unfoldable pub is_plain : Bool → String → Bool
is_plain held String.[] = not held
is_plain held (String.◌∷◌ c s) =
    let fresh = is_plain false s in
    let kept = is_plain true s in
    if nat_eq (code c) b'_' then (if held then false else kept) else fresh

abbrev underscore : Char
underscore = char 95 tt

abbrev attach : Option Char → String → String
attach none s = s
attach (some c) s = String.◌∷◌ c s

-- A text behind the separator.
abbrev apart : String → String
apart s = String.◌∷◌ underscore (String.◌∷◌ underscore s)

apart_lem : (s : String) → String.◌++◌ "__" s ≡ apart s
apart_lem s =
    append.cons underscore "_" s
    ∙ ap (λ t. String.◌∷◌ underscore t)
        (append.cons underscore "" s ∙ ap (λ t. String.◌∷◌ underscore t) (append.nil s))

-- The text behind a first character of a name; `IH`s are for the rest of the name.
split_from-char :
    (held : Option Char) (c : Char) (r t : String) (more : List String)
    → is_plain (is_some held) (String.◌∷◌ c r) ≡ true
    → (is_plain true r ≡ true → split_from (some c) t ≡ attach (some c) r ∷ more)
    → (is_plain false r ≡ true → split_from none t ≡ r ∷ more)
    → split_from held (String.◌∷◌ c t) ≡ attach held (String.◌∷◌ c r) ∷ more
unfolding split_from is_plain prepend
split_from-char none c r t more h kept fresh = elim (Bool-cases (nat_eq (code c) 95)) [
  | inl same ↦ rw same (kept (rw same at h))
  | inr other ↦ rw (other, fresh (rw other at h)) refl
]
split_from-char (some d) c r t more h kept fresh = elim (Bool-cases (nat_eq (code c) 95)) [
  | inl same ↦ cc (rw same at h)
  | inr other ↦ rw (other, fresh (rw other at h)) refl
]

split_from-plain :
    (held : Option Char) (r s : String)
    → is_plain (is_some held) r ≡ true
    → split_from held (String.◌++◌ r (apart s)) ≡ attach held r ∷ split_from none s
unfolding is_plain split_from
split_from-plain none String.[] s h = ap (split_from none) (append.nil (apart s))
split_from-plain (some d) String.[] s h = cc
split_from-plain held (String.◌∷◌ c r) s h =
    ap (split_from held) (append.cons c r (apart s))
    ∙ split_from-char held c r (String.◌++◌ r (apart s)) (split_from none s) h
        (λ k. split_from-plain (some c) r s k) (λ k. split_from-plain none r s k)

-- A text behind one that is plain, and the separator, is split on its own.
split_name-format :
    (r s : String)
    → is_plain false r ≡ true
    → split_name (String.◌++◌ r (String.◌++◌ "__" s)) ≡ r ∷ split_name s
unfolding split_name
split_name-format r s h =
    ap (λ t. split_from none (String.◌++◌ r t)) (apart_lem s) ∙ split_from-plain none r s h

prepend-cons :
    (c : Char) (parts : List String)
    → (x : String) × (xs : List String) × (prepend c parts ≡ x ∷ xs)
unfolding prepend
prepend-cons c [] = (String.◌∷◌ c "", [], refl)
prepend-cons c (x ∷ xs) = (String.◌∷◌ c x, xs, refl)

prepend_held-cons :
    (held : Option Char) (c : Char) (parts : List String)
    → (x : String) × (xs : List String) × (prepend_held held (prepend c parts) ≡ x ∷ xs)
prepend_held-cons none c parts = prepend-cons c parts
prepend_held-cons (some d) c parts = prepend-cons d (prepend c parts)

-- A name has a first part.
split_from-cons :
    (held : Option Char) (s : String)
    → (x : String) × (xs : List String) × (split_from held s ≡ x ∷ xs)
unfolding split_from prepend
split_from-cons none String.[] = ("", [], refl)
split_from-cons (some d) String.[] = (String.◌∷◌ d "", [], refl)
split_from-cons none (String.◌∷◌ c s) = elim (Bool-cases (nat_eq (code c) 95)) [
  | inl same ↦ rw same (split_from-cons (some c) s)
  | inr other ↦ rw other (prepend_held-cons none c (split_from none s))
]
split_from-cons (some d) (String.◌∷◌ c s) = elim (Bool-cases (nat_eq (code c) 95)) [
  | inl same ↦ rw same ("", split_from none s, refl)
  | inr other ↦ rw other (prepend_held-cons (some d) c (split_from none s))
]

join-prepend :
    (c : Char) (parts : List String) → join "__" (prepend c parts) ≡ String.◌∷◌ c (join "__" parts)
unfolding join prepend
join-prepend c [] = refl
join-prepend c (x ∷ []) = refl
join-prepend c (x ∷ y ∷ ys) = append.cons c x (String.◌++◌ "__" (join "__" (y ∷ ys)))

-- A held character is an underscore.
abbrev IsUnderscore : Option Char → Type 0
IsUnderscore none = Unit
IsUnderscore (some c) = nat_eq (code c) 95 ≡ true

underscore_lem : (c : Char) → nat_eq (code c) 95 ≡ true → c ≡ underscore
underscore_lem c h = Char-path c underscore (ground arith)

join-separated :
    (s : String) → join "__" ("" ∷ split_from none s) ≡ apart (join "__" (split_from none s))
unfolding join
join-separated s =
    let (x, xs, e) = split_from-cons none s in
    rw e (append.nil (String.◌++◌ "__" (join "__" (x ∷ xs))) ∙ apart_lem (join "__" (x ∷ xs)))

join-split_from :
    (held : Option Char) (s : String)
    → IsUnderscore held
    → join "__" (split_from held s) ≡ attach held s
unfolding split_from prepend join
join-split_from none String.[] u = refl
join-split_from (some d) String.[] u = refl
join-split_from none (String.◌∷◌ c s) u = elim (Bool-cases (nat_eq (code c) 95)) [
  | inl same ↦ rw same (join-split_from (some c) s same)
  | inr other ↦
      rw other (join-prepend c (split_from none s) ∙ ap (String.◌∷◌ c) (join-split_from none s tt))
]
join-split_from (some d) (String.◌∷◌ c s) u = elim (Bool-cases (nat_eq (code c) 95)) [
  | inl same ↦ rw same (
      join-separated s
      ∙ ap apart (join-split_from none s tt)
      ∙ ap (λ x. String.◌∷◌ x (String.◌∷◌ underscore s)) (sym (underscore_lem d u))
      ∙ ap (λ x. String.◌∷◌ d (String.◌∷◌ x s)) (sym (underscore_lem c same)))
  | inr other ↦ rw other (
      join-prepend d (prepend c (split_from none s))
      ∙ ap (String.◌∷◌ d)
          (join-prepend c (split_from none s) ∙ ap (String.◌∷◌ c) (join-split_from none s tt)))
]

split_name_lem : (s : String) → split_name s ≡ split_from none s
unfolding split_name
split_name_lem s = refl

split_name-formatted :
    (runner mcp tool : String)
    → is_plain false runner ≡ true
    → is_plain false mcp ≡ true
    → split_name (format_tool_name runner mcp tool) ≡ runner ∷ mcp ∷ split_from none tool
unfolding format_tool_name
split_name-formatted runner mcp tool plain_runner plain_mcp =
    split_name-format runner (String.◌++◌ mcp (String.◌++◌ "__" tool)) plain_runner
    ∙ ap (λ l. runner ∷ l)
        (split_name-format mcp tool plain_mcp ∙ ap (λ l. mcp ∷ l) (split_name_lem tool))

-- `parse_tool_prefix` gives back the runner, the MCP and the tool that `format_tool_name` put
-- together, for every tool name, where the names of the runner and the MCP have no "__" in them and
-- no underscore at their end.
pub parse_tool_prefix-format_tool_name :
    (runner mcp tool : String)
    → is_plain false runner ≡ true
    → is_plain false mcp ≡ true
    → parse_tool_prefix (format_tool_name runner mcp tool) ≡ some (runner, mcp, tool)
unfolding parse_tool_prefix
parse_tool_prefix-format_tool_name runner mcp tool plain_runner plain_mcp =
    let (x, xs, e) = split_from-cons none tool in
    let parts : split_name (format_tool_name runner mcp tool) ≡ runner ∷ mcp ∷ x ∷ xs =
      split_name-formatted runner mcp tool plain_runner plain_mcp ∙ ap (λ l. runner ∷ mcp ∷ l) e in
    rw (parse_tool_prefix, parts)
      (ap (λ t. some (runner, mcp, t)) (ap (join "__") (sym e) ∙ join-split_from none tool tt))
