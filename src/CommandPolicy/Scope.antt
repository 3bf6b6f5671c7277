-- ===== src/CommandPolicy/Scope.antt =====
-- provider/command_policy.py: required scopes, the operation of a command and the family of a
-- command. `casefold` is Python's method: a parameter, since nothing depends on what it folds.
use Prim.Native.Char.{Char}
use ma_provider_mcp.Prelude.{
  ℕ, String, Bool, false, ◌||◌, Option, none, some, List, [], ◌∷◌, ◌++◌, any, is_empty, str_eq,
  str_append, str_len, ltb, leb, starts_with, ends_with, ends_with_any, split, replace, contains,
  lookup, if◌then◌else◌,
}
use ma_provider_mcp.Capability.{Capability}
use ma_provider_mcp.CommandPolicy.Decision.{
  Operation, read, control, write, delete, system, FamilyPolicy, CommandProfile,
}
use ma_provider_mcp.CommandPolicy.Families.{family_policies, scope_families}
use ma_provider_mcp.CommandPolicy.Exact.{destructive_verbs}

-- A required scope as Music Assistant declares it: absent, one value, or a tuple of which any one
-- suffices. `named` holds the text of an enum member's `value`.
mutual
  pub data Scope : Type 0 where
    unset : Scope
    named : String → Scope
    any_of : Scopes → Scope

  pub data Scopes : Type 0 where
    nil : Scopes
    cons : Scope → Scopes → Scopes

-- _OPERATION_ORDER.index; `delete` is not in the order, and no scope has it for its operation
abbrev pub order : Operation → ℕ
order read = 0
order control = 1
order write = 2
order system = 3
order delete = 4

-- min(operations, key=_OPERATION_ORDER.index, default=None): the first of the least ones
abbrev weaker : Operation → Option Operation → Option Operation
weaker o none = some o
weaker o (some p) = if leb (order o) (order p) then some o else some p

-- `operations.append(op)` where `op` is not None, and then the minimum
abbrev weakest : Option Operation → Option Operation → Option Operation
weakest none rest = rest
weakest (some o) rest = weaker o rest

-- next(iter(family.capabilities.items()))
abbrev pub first_column : FamilyPolicy → Option (Operation × Capability)
first_column family = elim family.capabilities [ [] ↦ none | ◌∷◌ c cs ↦ some c ]

abbrev first_order : FamilyPolicy → ℕ
first_order family = elim family.capabilities [ [] ↦ 4 | ◌∷◌ c cs ↦ order c.0 ]

-- min(families, key=…): the first of the least ones; `none` where a member has no family
abbrev weaker_family : FamilyPolicy → Option FamilyPolicy → Option FamilyPolicy
weaker_family f none = none
weaker_family f (some g) = if leb (first_order f) (first_order g) then some f else some g

-- longest prefix, the first of equals
abbrev pub longer : FamilyPolicy → Option FamilyPolicy → Option FamilyPolicy
longer f none = some f
longer f (some g) = if ltb (str_len f.prefix) (str_len g.prefix) then some g else some f

unfoldable pub matches : String → FamilyPolicy → Bool
matches command family =
    if ends_with_any family.prefix ("/" ∷ "_" ∷ [])
    then starts_with command family.prefix
    else str_eq command family.prefix || starts_with command (str_append family.prefix "/")

-- max(matches, key=len of the prefix, default=None)
unfoldable pub longest_match : String → List FamilyPolicy → Option FamilyPolicy
longest_match command [] = none
longest_match command (f ∷ fs) =
    let rest = longest_match command fs in if matches command f then longer f rest else rest

unfoldable pub matching_family : String → Option FamilyPolicy
matching_family command = longest_match command family_policies

abbrev underscore : Char
underscore = "_"

-- part.split("_"), for each part
abbrev words_of : List String → List String
words_of [] = []
words_of (part ∷ parts) = split b'_' part ++ words_of parts

-- family.readonly, for a family that is there
abbrev is_readonly : Option FamilyPolicy → Bool
is_readonly none = false
is_readonly (some family) = family.readonly

-- the only column of a family that has one
abbrev single_column : Option FamilyPolicy → Option Operation
single_column none = none
single_column (some family) = elim family.capabilities [
  | [] ↦ none
  | ◌∷◌ c cs ↦ if is_empty cs then some c.0 else none
]

abbrev override : Option CommandProfile → Option Operation
override none = none
override (some profile) = profile.operation_override

-- the first of the answers that is there, and system
abbrev first_of_operations : Option Operation → Option Operation → Option Operation → Operation
first_of_operations (some o) _ _ = o
first_of_operations none (some o) _ = o
first_of_operations none none (some o) = o
first_of_operations none none none = system

-- The tests of `_scope_operation` on one folded value.
unfoldable pub value_operation : String → Option Operation
value_operation value =
    if str_eq value ""
    then none
    else if starts_with value "system."
    then some system
    else if ends_with value ".control"
    then some control
    else if ends_with_any value (".write" ∷ ".manage" ∷ ".own" ∷ [])
    then some write
    else if ends_with value ".read"
    then some read
    else none

module _ (casefold : String → String) where
  unfoldable mutual
    pub scope_operation : Scope → Option Operation
    scope_operation unset = value_operation (casefold "")
    scope_operation (named value) = value_operation (casefold value)
    scope_operation (any_of members) = weakest_operation members

    pub weakest_operation : Scopes → Option Operation
    weakest_operation nil = none
    weakest_operation (cons member members) =
        weakest (scope_operation member) (weakest_operation members)

  unfoldable mutual
    pub scope_family : Scope → Option FamilyPolicy
    scope_family unset = lookup (casefold "") scope_families
    scope_family (named value) = lookup (casefold value) scope_families
    scope_family (any_of members) = weakest_family members

    pub weakest_family : Scopes → Option FamilyPolicy
    weakest_family nil = none
    weakest_family (cons member nil) = scope_family member
    weakest_family (cons member (cons next members)) = elim (scope_family member) [
      | none ↦ none
      | some f ↦ weaker_family f (weakest_family (cons next members))
    ]

  -- {word for part in parts for word in part.split("_")}
  abbrev words : String → List String
  words command = words_of (split b'/' (replace b'-' underscore (casefold command)))

  -- words & _DESTRUCTIVE_VERBS
  unfoldable pub is_destructive : String → Bool
  is_destructive command = any (contains destructive_verbs) (words command)

  unfoldable pub operation :
      String → Scope → Option CommandProfile → Option FamilyPolicy → Operation
  operation command scope profile family =
      if is_readonly family
      then read
      else if is_destructive command
      then delete
      else first_of_operations (override profile) (scope_operation scope) (single_column family)
