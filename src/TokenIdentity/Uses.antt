-- ===== src/TokenIdentity/Uses.antt =====
-- provider/token_identity.py: the registry is ordered by the last use of its entries. A history has
-- the fingerprints that were bound or looked up, the newest first.
use ma_provider_mcp.Prelude.{
  ℕ, suc, ◌+◌, ◌≤◌, ◌≡◌, ap, String, false, none, some, List, [], ◌∷◌, ◌++◌, arith, length, str_eq,
  eq_refl, Dict, lookup, Bool-cases, Option-cases, inl, inr, if◌then◌else◌, length-append,
}
use ma_provider_mcp.TokenIdentity.Registry.{
  TokenIdentity, Registry, registry_init, record_resolution_failure, erase, put_last, evict, bind,
  discard, find_identity,
}
use ma_provider_mcp.TokenIdentity.Recency.{lookup-erase_self, apart, erase_absent, evict_oldest}
use ma_provider_mcp.TokenIdentity.Closed.{
  IsValid, Reached, started, bound, discarded, looked_up, failed, Reached-IsValid, bind_fields,
  discard_fields,
}

-- When a fingerprint was used last, counted from 1; 0 where it never was.
abbrev pub last_use : String → List String → ℕ
last_use k [] = 0
last_use k (x ∷ h) = let before = last_use k h in if str_eq x k then suc (length h) else before

-- Every entry was used later than a fingerprint.
abbrev pub Later : List String → String → Dict TokenIdentity → Type 0
Later h j [] = Unit
Later h j ((k, i) ∷ m) = (last_use j h + 1 ≤ last_use k h) × Later h j m

-- The entries stand in the order of their last uses, the oldest first.
abbrev pub Ordered : List String → Dict TokenIdentity → Type 0
Ordered h [] = Unit
Ordered h ((j, i) ∷ m) = Later h j m × Ordered h m

last_use-le : (k : String) (h : List String) → last_use k h ≤ length h
last_use-le k [] = omega arith
last_use-le k (x ∷ h) = ground (arith, last_use-le k h)

last_use_self : (k : String) (h : List String) → last_use k (k ∷ h) ≡ suc (length h)
last_use_self k h = rw (eq_refl k)

last_use_other :
    (j k : String) (h : List String) → str_eq j k ≡ false → last_use j (k ∷ h) ≡ last_use j h
last_use_other j k h e = rw (apart j k e)

missing :
    (j k : String) (i : TokenIdentity) (m : Dict TokenIdentity)
    → lookup k ((j, i) ∷ m) ≡ none
    → (str_eq j k ≡ false) × (lookup k m ≡ none)
missing j k i m h = elim (Bool-cases (str_eq j k)) [
  | inl e ↦ absurd (let z : some i ≡ none = rw e at h in absurd cc)
  | inr e ↦ (e, rw e at h)
]

Later-erase :
    (h : List String) (j k : String) (m : Dict TokenIdentity) → Later h j m → Later h j (erase k m)
Later-erase h j k [] p = tt
Later-erase h j k ((l, i) ∷ m) (first, rest) = elim (Bool-cases (str_eq l k)) [
  | inl e ↦ rw e rest
  | inr e ↦ rw e (first, Later-erase h j k m rest)
]

Ordered-erase :
    (h : List String) (k : String) (m : Dict TokenIdentity) → Ordered h m → Ordered h (erase k m)
Ordered-erase h k [] p = tt
Ordered-erase h k ((l, i) ∷ m) (first, rest) = elim (Bool-cases (str_eq l k)) [
  | inl e ↦ rw e rest
  | inr e ↦ rw e (Later-erase h l k m first, Ordered-erase h k m rest)
]

Ordered-evict :
    (h : List String) (capacity : ℕ) (m : Dict TokenIdentity)
    → Ordered h m
    → Ordered h (evict capacity m)
unfolding evict
Ordered-evict h capacity [] p = tt
Ordered-evict h capacity ((l, i) ∷ m) (first, rest) =
    ground (arith, Ordered-evict h capacity m rest)

module _ (h : List String) (k : String) where
  -- The use of a fingerprint that has no entry.
  Later-missed :
      (j : String) (m : Dict TokenIdentity)
      → str_eq j k ≡ false
      → lookup k m ≡ none
      → Later h j m
      → Later (k ∷ h) j m
  Later-missed j [] e n p = tt
  Later-missed j ((l, i) ∷ m) e n (first, rest) =
      let (other, none_left) = missing l k i m n in
      (
        rw (last_use_other j k h e, last_use_other l k h other) first,
        Later-missed j m e none_left rest,
      )

  Ordered-missed : (m : Dict TokenIdentity) → lookup k m ≡ none → Ordered h m → Ordered (k ∷ h) m
  Ordered-missed [] n p = tt
  Ordered-missed ((l, i) ∷ m) n (first, rest) =
      let (other, none_left) = missing l k i m n in
      (Later-missed l m other none_left first, Ordered-missed m none_left rest)

  module _ (i : TokenIdentity) where
    Later-last :
        (j : String) (m : Dict TokenIdentity)
        → str_eq j k ≡ false
        → Later (k ∷ h) j m
        → Later (k ∷ h) j (m ++ (k, i) ∷ [])
    Later-last j [] e p =
        (rw (last_use_other j k h e, last_use_self k h) (omega (arith, last_use-le j h)), tt)
    Later-last j ((l, o) ∷ m) e (first, rest) = (first, Later-last j m e rest)

    Ordered-last :
        (m : Dict TokenIdentity)
        → lookup k m ≡ none
        → Ordered (k ∷ h) m
        → Ordered (k ∷ h) (m ++ (k, i) ∷ [])
    Ordered-last [] n p = (tt, tt)
    Ordered-last ((l, o) ∷ m) n (first, rest) =
        let (other, none_left) = missing l k o m n in
        (Later-last l m other first, Ordered-last m none_left rest)

    -- The use of a fingerprint that is put last.
    Ordered-put_last :
        (r : Registry) → IsValid r → Ordered h r.entries → Ordered (k ∷ h) (put_last k i r.entries)
    Ordered-put_last r v p =
        let gone = lookup-erase_self k r.entries v.keyed in
        Ordered-last (erase k r.entries) gone
          (Ordered-missed (erase k r.entries) gone (Ordered-erase h k r.entries p))

-- The registries that a run of the operations reaches, with the fingerprints that it used.
pub data Used (fingerprint : String → String) : List String → Registry → Type 0 where
  begun : (capacity : ℕ) (r : Registry) → registry_init capacity ≡ some r → Used fingerprint [] r
  used_bind :
      (b : String) (i : TokenIdentity) (h : List String) (r : Registry)
      → Used fingerprint h r
      → Used fingerprint (fingerprint b ∷ h) (bind fingerprint b i r)
  used_discard :
      (b : String) (h : List String) (r : Registry)
      → Used fingerprint h r
      → Used fingerprint h (discard fingerprint b r)
  used_lookup :
      (b : String) (h : List String) (r : Registry)
      → Used fingerprint h r
      → Used fingerprint (fingerprint b ∷ h) (find_identity fingerprint b r).1
  used_failure :
      (h : List String) (r : Registry)
      → Used fingerprint h r
      → Used fingerprint h (record_resolution_failure r)

module _ (fingerprint : String → String) where
  Used-Reached : (h : List String) (r : Registry) → Used fingerprint h r → Reached fingerprint r
  Used-Reached _ _ (begun capacity r e) = started capacity r e
  Used-Reached _ _ (used_bind b i h r p) = bound b i r (Used-Reached h r p)
  Used-Reached _ _ (used_discard b h r p) = discarded b r (Used-Reached h r p)
  Used-Reached _ _ (used_lookup b h r p) = looked_up b r (Used-Reached h r p)
  Used-Reached _ _ (used_failure h r p) = failed r (Used-Reached h r p)

  Used-IsValid : (h : List String) (r : Registry) → Used fingerprint h r → IsValid r
  Used-IsValid h r p = Reached-IsValid fingerprint r (Used-Reached h r p)

  find_identity-Ordered :
      (b : String) (h : List String) (r : Registry)
      → IsValid r
      → Ordered h r.entries
      → Ordered (fingerprint b ∷ h) (find_identity fingerprint b r).1.entries
  unfolding find_identity
  find_identity-Ordered b h r v p = elim (Option-cases (lookup (fingerprint b) r.entries)) [
    | inl e ↦ rw e (Ordered-missed h (fingerprint b) r.entries e p)
    | inr (i, e) ↦ rw e (Ordered-put_last h (fingerprint b) i r v p)
  ]

  started-Ordered : (capacity : ℕ) (r : Registry) → registry_init capacity ≡ some r → r.entries ≡ []
  unfolding registry_init
  started-Ordered capacity r h = ground arith

  Used-Ordered : (h : List String) (r : Registry) → Used fingerprint h r → Ordered h r.entries
  unfolding record_resolution_failure
  Used-Ordered _ _ (begun capacity r e) = rw (started-Ordered capacity r e) tt
  Used-Ordered _ _ (used_bind b i h r p) = rw (bind_fields fingerprint b r i).0 (
      Ordered-evict (fingerprint b ∷ h) r.capacity (put_last (fingerprint b) i r.entries)
        (Ordered-put_last h (fingerprint b) i r (Used-IsValid h r p) (Used-Ordered h r p)))
  Used-Ordered _ _ (used_discard b h r p) =
      rw (discard_fields fingerprint b r).0
        (Ordered-erase h (fingerprint b) r.entries (Used-Ordered h r p))
  Used-Ordered _ _ (used_lookup b h r p) =
      find_identity-Ordered b h r (Used-IsValid h r p) (Used-Ordered h r p)
  Used-Ordered _ _ (used_failure h r p) = Used-Ordered h r p

  oldest_first :
      (h : List String) (r : Registry) (oldest : String × TokenIdentity) (rest : Dict TokenIdentity)
      → Ordered h r.entries
      → r.entries ≡ oldest ∷ rest
      → Later h oldest.0 rest
  oldest_first h r (j, o) rest p e = let q : Ordered h ((j, o) ∷ rest) = rw e at p in q.0

  -- After any run of the operations, the binding of a new bearer in a full registry evicts one entry
  -- and no other: every entry that stays was bound or looked up later than the evicted one was the
  -- last time.
  pub bind-evicts_oldest :
      (h : List String) (r : Registry)
      → Used fingerprint h r
      → (b : String) (i : TokenIdentity) (oldest : String × TokenIdentity)
        (rest : Dict TokenIdentity)
      → r.entries ≡ oldest ∷ rest
      → length r.entries ≡ r.capacity
      → lookup (fingerprint b) r.entries ≡ none
      → ((bind fingerprint b i r).entries ≡ rest ++ (fingerprint b, i) ∷ []) × Later h oldest.0 rest
  bind-evicts_oldest h r p b i oldest rest e full fresh = (
    rw ((bind_fields fingerprint b r i).0, erase_absent (fingerprint b) r.entries fresh, e)
        (evict_oldest r.capacity oldest _
          (omega (arith, length-append rest ((fingerprint b, i) ∷ []), ap length e, full))),
    oldest_first h r oldest rest (Used-Ordered h r p) e,
  )
