-- ===== src/Prelude/Dicts.antt =====
-- Python dictionaries with string keys as association lists: the first entry of a key counts.
use Prim.Native.String.{String}
use mathlib.Core.Path.{◌≡◌, refl}
use mathlib.Core.Bool.{Bool, false, ◌||◌}
use ma_provider_mcp.Prelude.Tests.{if◌then◌else◌}
use mathlib.Core.Option.{Option, none, some}
use mathlib.Core.Option
use mathlib.Core.List.{List, [], ◌∷◌}
use native.Mathlib.Omega.{arith}
use text.Mathlib.Text.{◌==◌ as str_eq}

abbrev pub Dict {ℓ} : Type ℓ → Type ℓ
Dict V = List (String × V)

-- `name in names`
abbrev pub contains : List String → String → Bool
contains [] k = false
contains (j ∷ js) k = str_eq j k || contains js k

module _ {ℓ} {V : Type ℓ} where
  -- d.get(k)
  abbrev pub lookup : String → Dict V → Option V
  lookup k [] = none
  lookup k ((j, v) ∷ m) = if str_eq j k then some v else lookup k m

  abbrev pub keys : Dict V → List String
  keys [] = []
  keys ((j, v) ∷ m) = j ∷ keys m

module _ {ℓ} {V : Type ℓ} where
  -- d[k] = v
  abbrev pub insert : String → V → Dict V → Dict V
  insert k v [] = (k, v) ∷ []
  insert k v ((j, w) ∷ m) =
      let rest = insert k v m in if str_eq j k then (k, v) ∷ m else (j, w) ∷ rest

  -- d.update(other)
  abbrev pub update : Dict V → Dict V → Dict V
  update m [] = m
  update m ((k, v) ∷ other) = update (insert k v m) other

-- {k: f(v) for k, v in d.items()}
module _ {ℓ κ} {V : Type ℓ} {W : Type κ} where
  abbrev pub map_values : (V → W) → Dict V → Dict W
  map_values f [] = []
  map_values f ((j, v) ∷ m) = (j, f v) ∷ map_values f m

  pub lookup-map_values :
      (f : V → W) (k : String) (m : Dict V) → lookup k (map_values f m) ≡ Option.map f (lookup k m)
  lookup-map_values f k [] = refl
  lookup-map_values f k ((j, v) ∷ m) = ground (arith, lookup-map_values f k m)

-- A dictionary holds a key once.
abbrev pub Distinct : List String → Type 0
Distinct [] = Unit
Distinct (k ∷ ks) = (contains ks k ≡ false) × Distinct ks
