-- ===== src/Serialization/Within.antt =====
-- provider/dynamic_serialization.py: how large a bounded value is.
use ma_provider_mcp.Prelude.{
  ℕ, zero, suc, ◌+◌, ◌-◌, ◌≤◌, ◌==◌, ◌≡◌, refl, ap, Bool, true, false, not, ◌&&◌, some, List, [],
  ◌∷◌, map, length, length-append, all, leb, ltb, and_split, Bool-cases, inl, inr, arith,
}
use ma_provider_mcp.Serialization.Json.{
  Text, Json, null, truth, number, text, array, object, Items, end, item, Fields, done, field,
  items_of, fields_of, put, take, insert_by, sort_by, replaced, bounded_string,
}

-- The sizes of a JSON value.
pub record Limits : Type 0 where
  pub items : ℕ
  pub keys : ℕ
  pub chars : ℕ

abbrev mutual
  pub count_items : {Number : Type 0} → Items Number → ℕ
  count_items end = 0
  count_items (item j js) = suc (count_items js)

  pub count_fields : {Number : Type 0} → Fields Number → ℕ
  count_fields done = 0
  count_fields (field k j fs) = suc (count_fields fs)

-- At most so many items in each list, keys in each mapping and characters in each text, and nested
-- at most so deep. The keys of a mapping may be longer.
abbrev mutual
  pub within : {Number : Type 0} → Limits → ℕ → Json Number → Bool
  within l d null = true
  within l d (truth b) = true
  within l d (number n) = true
  within l d (text s) = leb (length s) l.chars
  within l d (array js) =
      not (d == 0) && (leb (count_items js) l.items && within_items l (d - 1) js)
  within l d (object fs) =
      not (d == 0) && (leb (count_fields fs) l.keys && within_fields l (d - 1) fs)

  pub within_items : {Number : Type 0} → Limits → ℕ → Items Number → Bool
  within_items l d end = true
  within_items l d (item j js) = within l d j && within_items l d js

  pub within_fields : {Number : Type 0} → Limits → ℕ → Fields Number → Bool
  within_fields l d done = true
  within_fields l d (field k j fs) = within l d j && within_fields l d fs

abbrev pub field_within : {Number : Type 0} → Limits → ℕ → Text × Json Number → Bool
field_within l d f = within l d f.1

module _ {Number : Type 0} (l : Limits) (d : ℕ) where
  within-items_of : (js : List (Json Number)) → within_items l d (items_of js) ≡ all (within l d) js
  within-items_of [] = refl
  within-items_of (j ∷ js) = ap (λ b. within l d j && b) (within-items_of js)

  within-fields_of :
      (fs : List (Text × Json Number))
      → within_fields l d (fields_of fs) ≡ all (field_within l d) fs
  within-fields_of [] = refl
  within-fields_of ((k, j) ∷ fs) = ap (λ b. within l d j && b) (within-fields_of fs)

count-items_of : {Number : Type 0} (js : List (Json Number)) → count_items (items_of js) ≡ length js
count-items_of [] = refl
count-items_of (j ∷ js) = ap suc (count-items_of js)

count-fields_of :
    {Number : Type 0} (fs : List (Text × Json Number)) → count_fields (fields_of fs) ≡ length fs
count-fields_of [] = refl
count-fields_of ((k, j) ∷ fs) = ap suc (count-fields_of fs)

-- The list and the mapping of parts that are within the limits.
pub array-within :
    {Number : Type 0} (l : Limits) (d : ℕ) (js : List (Json Number))
    → (d == 0) ≡ false
    → length js ≤ l.items
    → all (within l (d - 1)) js ≡ true
    → within l d (array (items_of js)) ≡ true
array-within l d js z n h =
    rw (count-items_of js) (rw (within-items_of l (d - 1) js) (ground arith))

pub object-within :
    {Number : Type 0} (l : Limits) (d : ℕ) (fs : List (Text × Json Number))
    → (d == 0) ≡ false
    → length fs ≤ l.keys
    → all (field_within l (d - 1)) fs ≡ true
    → within l d (object (fields_of fs)) ≡ true
object-within l d fs z n h =
    rw (count-fields_of fs) (rw (within-fields_of l (d - 1) fs) (ground arith))

module _ {Number : Type 0} where
  pub length-put :
      (k : Text) (j : Json Number) (fs : List (Text × Json Number))
      → length (put k j fs) ≤ suc (length fs)
  length-put k j [] = omega arith
  length-put k j ((i, x) ∷ fs) = ground (arith, length-put k j fs)

  pub all-put :
      (q : Json Number → Bool) (k : Text) (j : Json Number) (fs : List (Text × Json Number))
      → q j ≡ true
      → all (λ f. q f.1) fs ≡ true
      → all (λ f. q f.1) (put k j fs) ≡ true
  all-put q k j [] g h = ground arith
  all-put q k j ((i, x) ∷ fs) g h = ground (arith, all-put q k j fs)

module _ {A : Type 0} where
  pub length-take : (n : ℕ) (xs : List A) → length (take n xs) ≤ n
  length-take n [] = omega arith
  length-take zero (x ∷ xs) = omega arith
  length-take (suc n) (x ∷ xs) = omega (arith, length-take n xs)

  pub all-take : (p : A → Bool) (n : ℕ) (xs : List A) → all p xs ≡ true → all p (take n xs) ≡ true
  all-take p n [] h = refl
  all-take p zero (x ∷ xs) h = refl
  all-take p (suc n) (x ∷ xs) h = ground (arith, all-take p n xs)

  all-insert :
      (p : A → Bool) (key : A → Text) (x : A) (xs : List A)
      → p x ≡ true
      → all p xs ≡ true
      → all p (insert_by key x xs) ≡ true
  all-insert p key x [] g h = ground arith
  all-insert p key x (y ∷ ys) g h = ground (arith, all-insert p key x ys)

  pub all-sort :
      (p : A → Bool) (key : A → Text) (xs : List A)
      → all p xs ≡ true
      → all p (sort_by key xs) ≡ true
  all-sort p key [] h = refl
  all-sort p key (x ∷ xs) h =
      all-insert p key x (sort_by key xs) (and_split _ _ h).0
        (all-sort p key xs (and_split _ _ h).1)

pub length-map : {A B : Type 0} (f : A → B) (xs : List A) → length (map f xs) ≡ length xs
length-map f [] = refl
length-map f (x ∷ xs) = ap suc (length-map f xs)

-- A text that is bounded has one character more than the cap where it is cut.
pub length-bounded_string :
    (s : Text) (limit : ℕ) → length (bounded_string s (some limit)).0 ≤ limit + 1
unfolding bounded_string
length-bounded_string s limit = elim (Bool-cases (ltb limit (length s))) [
  | inl e ↦ rw e (
      omega (
        arith,
        length-append (map replaced (take limit s)) (8230 ∷ []),
        length-map replaced (take limit s),
        length-take limit s,
      ))
  | inr e ↦ let kept = length-map replaced s in rw e (ground (arith, kept))
]
