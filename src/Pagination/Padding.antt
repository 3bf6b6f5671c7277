-- ===== src/Pagination/Padding.antt =====
-- provider/catalog_pagination.py: the padding of base64, stripped by one side and put back by the
-- other.
use ma_provider_mcp.Prelude.{
  ℕ, zero, suc, ◌+◌, ◌-◌, ◌%◌, ◌≤◌, ◌≡◌, refl, sym, ap, ◌∙◌, true, false, ◌&&◌, List, [], ◌∷◌, ◌++◌,
  inl, inr, arith, length, length-append, is_empty, ◌==◌, Bool-cases,
}
use ma_provider_mcp.Pagination.Cursor.{equals_sign, rstrip, repeat, padding}

length-repeat : (n : ℕ) → length (repeat n) ≡ n
length-repeat zero = refl
length-repeat (suc n) = ap suc (length-repeat n)

-- What rstrip takes away is signs of equality.
stripped : (cs : List ℕ) → (n : ℕ) × (cs ≡ rstrip cs ++ repeat n)
stripped [] = (0, refl)
stripped (c ∷ cs) =
    let (n, e) = stripped cs in
    elim (Bool-cases (is_empty (rstrip cs) && c == equals_sign)) [
      | inl h ↦ (suc n, rw h (all_stripped (rstrip cs) n e h))
      | inr h ↦ (n, rw h (ap (λ ds. c ∷ ds) e))
    ]
  where
    all_stripped :
        (rest : List ℕ) (n : ℕ)
        → cs ≡ rest ++ repeat n
        → (is_empty rest && c == equals_sign) ≡ true
        → c ∷ cs ≡ repeat (suc n)
    all_stripped [] n e h = ground arith
    all_stripped (d ∷ ds) n e h = absurd cc

repeat_path : (m n : ℕ) → m ≡ n → repeat m ≡ repeat n
repeat_path m n e = ap repeat e

missing_signs :
    (whole part n : ℕ)
    → whole ≡ part + n
    → whole % 4 ≡ 0
    → whole ≤ part + 2
    → n ≡ (4 - part % 4) % 4
missing_signs whole part n e fours few = omega arith

-- Where base64 has a multiple of four characters and at most two signs at its end, as it is
-- documented to, the padding gives back what rstrip took away.
pub rstrip-padding :
    (cs : List ℕ)
    → length cs % 4 ≡ 0
    → length cs ≤ length (rstrip cs) + 2
    → rstrip cs ++ padding (rstrip cs) ≡ cs
rstrip-padding cs fours few =
    let (n, e) = stripped cs in
    let counted : length cs ≡ length (rstrip cs) + n =
      omega (arith, ap length e, length-append (rstrip cs) (repeat n), length-repeat n) in
    ap (λ ds. rstrip cs ++ ds)
      (sym (repeat_path n _ (missing_signs (length cs) (length (rstrip cs)) n counted fours few)))
    ∙ sym e

-- And something is left.
pub rstrip_filled :
    (cs : List ℕ)
    → length cs % 4 ≡ 0
    → 1 ≤ length cs
    → length cs ≤ length (rstrip cs) + 2
    → is_empty (rstrip cs) ≡ false
rstrip_filled cs fours some_text few = filled (rstrip cs) (omega arith)
  where
    filled : (ds : List ℕ) → 1 ≤ length ds → is_empty ds ≡ false
    filled [] h = absurd (omega arith)
    filled (d ∷ ds) h = refl
