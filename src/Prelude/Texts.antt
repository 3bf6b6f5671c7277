-- ===== src/Prelude/Texts.antt =====
-- The text methods of Python that the program calls on command names and scopes.
use Prim.Native.Char.{Char, code}
use Prim.Native.String.{String}
use mathlib.Core.Bool.{Bool, ◌||◌}
use mathlib.Core.List.{List, [], ◌∷◌}
use text.Mathlib.Text.{◌==◌ as str_eq, starts_with}
use ma_provider_mcp.Prelude.Tests.{◌==◌, if◌then◌else◌}
use ma_provider_mcp.Prelude.Lists.{any}
use Prim.Native.Nat.{ℕ}

-- Adds a character in front of the first piece.
abbrev pub push : Char → List String → List String
push c [] = String.◌∷◌ c String.[] ∷ []
push c (word ∷ words) = String.◌∷◌ c word ∷ words

-- text.split(separator), for a separator of one character given by its code
abbrev pub split : ℕ → String → List String
split d String.[] = String.[] ∷ []
split d (String.◌∷◌ c s) =
    let rest = split d s in if code c == d then String.[] ∷ rest else push c rest

-- text.replace(old, new), for characters
abbrev pub replace : ℕ → Char → String → String
replace d e String.[] = String.[]
replace d e (String.◌∷◌ c s) =
    let rest = replace d e s in if code c == d then String.◌∷◌ e rest else String.◌∷◌ c rest

-- text.endswith(suffix)
abbrev pub ends_with : String → String → Bool
ends_with String.[] suffix = str_eq String.[] suffix
ends_with (String.◌∷◌ c s) suffix = str_eq (String.◌∷◌ c s) suffix || ends_with s suffix

-- text.startswith(prefixes), text.endswith(suffixes), for tuples
abbrev pub starts_with_any : String → List String → Bool
starts_with_any text prefixes = any (starts_with text) prefixes

abbrev pub ends_with_any : String → List String → Bool
ends_with_any text suffixes = any (ends_with text) suffixes
