-- ===== src/TokenIdentity/Recency.antt =====
-- provider/token_identity.py: the operations on the ordered dictionary.
use mathlib.Core.Bool.{true≢false}
use ma_provider_mcp.Prelude.{
  subst, ℕ, ◌+◌, ◌≤◌, ◌≡◌, refl, sym, ◌∙◌, ◌⊎◌, inl, inr, String, true, false, none, some, [], ◌∷◌,
  ◌++◌, arith, length, str_eq, eq_refl, eq_iff, Dict, lookup, Bool-cases,
}
use ma_provider_mcp.TokenIdentity.Registry.{TokenIdentity, erase, evict}

pub length-erase-le : (k : String) (m : Dict TokenIdentity) → length (erase k m) ≤ length m
length-erase-le k [] = omega arith
length-erase-le k ((j, i) ∷ m) = ground (arith, length-erase-le k m)

pub erase-found :
    (k : String) (m : Dict TokenIdentity) (i : TokenIdentity)
    → lookup k m ≡ some i
    → length (erase k m) + 1 ≡ length m
erase-found k [] i h = absurd (ground arith)
erase-found k ((j, l) ∷ m) i h = ground (arith, erase-found k m i)

pub length-evict-le : (capacity : ℕ) (m : Dict TokenIdentity) → length (evict capacity m) ≤ capacity
unfolding evict
length-evict-le capacity [] = omega arith
length-evict-le capacity (e ∷ m) = ground (arith, length-evict-le capacity m)

lookup-last :
    (k : String) (i : TokenIdentity) (m : Dict TokenIdentity)
    → lookup k m ≡ none
    → lookup k (m ++ (k, i) ∷ []) ≡ some i
lookup-last k i [] h = rw (eq_refl k)
lookup-last k i ((j, l) ∷ m) h = ground (arith, lookup-last k i m)

-- The last of a list is never evicted.
pub evict-last :
    (capacity : ℕ) (k : String) (i : TokenIdentity) (m : Dict TokenIdentity)
    → 1 ≤ capacity
    → lookup k m ≡ none
    → lookup k (evict capacity (m ++ (k, i) ∷ [])) ≡ some i
unfolding evict
evict-last capacity k i [] c h = ground (arith, eq_refl k)
evict-last capacity k i ((j, l) ∷ m) c h =
    ground (arith, evict-last capacity k i m c, lookup-last k i m)

-- A dictionary holds each key once.
abbrev pub IsDict : Dict TokenIdentity → Type 0
IsDict [] = Unit
IsDict ((j, i) ∷ m) = (lookup j m ≡ none) × IsDict m

lookup-erase-none :
    (k j : String) (m : Dict TokenIdentity) → lookup j m ≡ none → lookup j (erase k m) ≡ none
lookup-erase-none k j [] h = refl
lookup-erase-none k j ((l, i) ∷ m) h = ground (arith, lookup-erase-none k j m)

pub fresh_at :
    (j k : String) (m : Dict TokenIdentity)
    → lookup j m ≡ none
    → str_eq j k ≡ true
    → lookup k m ≡ none
fresh_at j k m fresh e = subst (λ t. lookup t m ≡ none) ((eq_iff j k).0 e) fresh

pub lookup-erase_self :
    (k : String) (m : Dict TokenIdentity) → IsDict m → lookup k (erase k m) ≡ none
lookup-erase_self k [] h = refl
lookup-erase_self k ((j, i) ∷ m) (fresh, rest) = elim (Bool-cases (str_eq j k)) [
  | inl e ↦ rw e (fresh_at j k m fresh e)
  | inr e ↦ ground (arith, lookup-erase_self k m rest)
]

pub IsDict-erase : (k : String) (m : Dict TokenIdentity) → IsDict m → IsDict (erase k m)
IsDict-erase k [] h = tt
IsDict-erase k ((j, i) ∷ m) (fresh, rest) = elim (Bool-cases (str_eq j k)) [
  | inl e ↦ rw e rest
  | inr e ↦ rw e (lookup-erase-none k j m fresh, IsDict-erase k m rest)
]

pub apart : (j k : String) → str_eq j k ≡ false → str_eq k j ≡ false
apart j k e = elim (Bool-cases (str_eq k j)) [
  | inl same ↦
      absurd
        (true≢false (sym (eq_refl j) ∙ subst (λ t. str_eq j t ≡ false) ((eq_iff k j).0 same) e))
  | inr other ↦ other
]

pub lookup-append_other :
    (j k : String) (i : TokenIdentity) (m : Dict TokenIdentity)
    → str_eq k j ≡ false
    → lookup j (m ++ (k, i) ∷ []) ≡ lookup j m
lookup-append_other j k i [] h = rw h
lookup-append_other j k i ((l, o) ∷ m) h = ground (arith, lookup-append_other j k i m h)

pub lookup-evict :
    (capacity : ℕ) (j : String) (m : Dict TokenIdentity)
    → IsDict m
    → (lookup j (evict capacity m) ≡ none) ⊎ (lookup j (evict capacity m) ≡ lookup j m)
unfolding evict
lookup-evict capacity j [] h = inl refl
lookup-evict capacity j ((k, i) ∷ m) (fresh, rest) = elim (Bool-cases (str_eq k j)) [
  | inl e ↦ ground (arith, lookup-evict capacity j m rest, fresh_at k j m fresh e)
  | inr e ↦ ground (arith, lookup-evict capacity j m rest)
]

pub IsDict-evict : (capacity : ℕ) (m : Dict TokenIdentity) → IsDict m → IsDict (evict capacity m)
unfolding evict
IsDict-evict capacity [] h = tt
IsDict-evict capacity ((k, i) ∷ m) (fresh, rest) = ground (arith, IsDict-evict capacity m rest)

pub IsDict-append :
    (k : String) (i : TokenIdentity) (m : Dict TokenIdentity)
    → lookup k m ≡ none
    → IsDict m
    → IsDict (m ++ (k, i) ∷ [])
IsDict-append k i [] h d = (refl, tt)
IsDict-append k i ((j, l) ∷ m) h (fresh, rest) = elim (Bool-cases (str_eq j k)) [
  | inl e ↦ absurd (let z : some l ≡ none = rw e at h in absurd cc)
  | inr e ↦
      (lookup-append_other j k i m (apart j k e) ∙ fresh, IsDict-append k i m (rw e at h) rest)
]

pub erase_absent : (k : String) (m : Dict TokenIdentity) → lookup k m ≡ none → erase k m ≡ m
erase_absent k [] h = refl
erase_absent k ((j, i) ∷ m) h = elim (Bool-cases (str_eq j k)) [
  | inl e ↦ absurd (let z : some i ≡ none = rw e at h in absurd cc)
  | inr e ↦ ground (arith, erase_absent k m (rw e at h))
]

pub lookup-erase_other :
    (j k : String) (m : Dict TokenIdentity) → str_eq k j ≡ false → lookup j (erase k m) ≡ lookup j m
lookup-erase_other j k [] h = refl
lookup-erase_other j k ((l, i) ∷ m) h = elim (Bool-cases (str_eq l k)) [
  | inl e ↦ ground (arith, lookup-erase_other j k m h, eq_iff l k)
  | inr e ↦ ground (arith, lookup-erase_other j k m h)
]

pub evict_fitting :
    (capacity : ℕ) (m : Dict TokenIdentity) → length m ≤ capacity → evict capacity m ≡ m
unfolding evict
evict_fitting capacity [] h = refl
evict_fitting capacity (e ∷ m) h = ground arith

pub evict_oldest :
    (capacity : ℕ) (e : String × TokenIdentity) (m : Dict TokenIdentity)
    → length m ≡ capacity
    → evict capacity (e ∷ m) ≡ m
unfolding evict
evict_oldest capacity e m h = ground (arith, evict_fitting capacity m)
