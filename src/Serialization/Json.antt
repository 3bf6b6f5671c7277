-- ===== src/Serialization/Json.antt =====
-- provider/dynamic_serialization.py: JSON values, and the texts in them.
use ma_provider_mcp.Prelude.{
  ℕ, zero, suc, Bool, true, false, ◌&&◌, ◌||◌, Option, none, some, List, [], ◌∷◌, ◌++◌, map, length,
  ltb, leb, ◌==◌, not, if◌then◌else◌,
}

-- A text is the list of its code points, since Python's may hold lone surrogates.
abbrev pub Text : Type 0
Text = List ℕ

-- `JSONValue`. The ints and floats of Python are one type of numbers.
mutual
  pub data Json (Number : Type 0) : Type 0 where
    null : Json Number
    truth : Bool → Json Number
    number : Number → Json Number
    text : Text → Json Number
    array : Items Number → Json Number
    object : Fields Number → Json Number

  pub data Items (Number : Type 0) : Type 0 where
    end : Items Number
    item : Json Number → Items Number → Items Number

  pub data Fields (Number : Type 0) : Type 0 where
    done : Fields Number
    field : Text → Json Number → Fields Number → Fields Number

abbrev pub same_text : Text → Text → Bool
same_text [] [] = true
same_text [] (d ∷ t) = false
same_text (c ∷ s) [] = false
same_text (c ∷ s) (d ∷ t) = (c == d) && same_text s t

-- s <= t
abbrev pub at_most : Text → Text → Bool
at_most [] t = true
at_most (c ∷ s) [] = false
at_most (c ∷ s) (d ∷ t) = ltb c d || ((c == d) && at_most s t)

-- s[:n]
abbrev pub take {ℓ} : {A : Type ℓ} → ℕ → List A → List A
take n [] = []
take zero (a ∷ bs) = []
take (suc n) (a ∷ bs) = a ∷ take n bs

module _ {Number : Type 0} where
  abbrev pub items_of : List (Json Number) → Items Number
  items_of [] = end
  items_of (j ∷ js) = item j (items_of js)

  abbrev pub fields_of : List (Text × Json Number) → Fields Number
  fields_of [] = done
  fields_of ((k, j) ∷ fs) = field k j (fields_of fs)

  -- result[k] = j
  abbrev pub put : Text → Json Number → List (Text × Json Number) → List (Text × Json Number)
  put k j [] = (k, j) ∷ []
  put k j ((l, i) ∷ fs) =
      let rest = put k j fs in if same_text l k then (l, j) ∷ fs else (l, i) ∷ rest

  -- k in result
  abbrev pub has : Text → List (Text × Json Number) → Bool
  has k [] = false
  has k ((l, i) ∷ fs) = same_text l k || has k fs

-- 0xD800 <= c <= 0xDFFF
abbrev pub is_surrogate : ℕ → Bool
is_surrogate c = leb 55296 c && leb c 57343

abbrev pub replaced : ℕ → ℕ
replaced c = if is_surrogate c then 65533 else c

abbrev pub is_over : Text → Option ℕ → Bool
is_over value none = false
is_over value (some limit) = ltb limit (length value)

abbrev pub cut : Text → Option ℕ → Text
cut value none = value
cut value (some limit) = take limit value

-- `_bounded_string`
unfoldable pub bounded_string : Text → Option ℕ → Text × Bool
bounded_string value limit =
    if is_over value limit
    then (map replaced (cut value limit) ++ 8230 ∷ [], true)
    else (map replaced value, not (same_text (map replaced value) value))

-- sorted(children, key=...), which is stable
module _ {A : Type 0} (key : A → Text) where
  abbrev pub insert_by : A → List A → List A
  insert_by a [] = a ∷ []
  insert_by a (b ∷ bs) =
      let rest = insert_by a bs in if at_most (key a) (key b) then a ∷ b ∷ bs else b ∷ rest

  abbrev pub sort_by : List A → List A
  sort_by [] = []
  sort_by (a ∷ bs) = insert_by a (sort_by bs)
