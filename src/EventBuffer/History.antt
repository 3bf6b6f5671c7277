-- ===== src/EventBuffer/History.antt =====
-- provider/debug/event_buffer.py: what the buffer keeps of the events that it has seen.
use ma_provider_mcp.Prelude.{
  ℕ, ◌+◌, ◌≤◌, ◌<◌, ltb→lt, ◌≡◌, refl, sym, ap, ◌∙◌, inl, inr, String, false, List, [], ◌∷◌, ◌++◌,
  arith, length, length-append, ltb, str_eq, eq_iff, eq_refl, Dict, insert, Result, Bool-cases,
  Option-cases, if◌then◌else◌,
}
use ma_provider_mcp.EventBuffer.Buffer.{
  EventRecord, EventBuffer, last, min, count_of, buffer_init, start, stop, on_event, stats,
}

pub length-last {ℓ} : {A : Type ℓ} (n : ℕ) (xs : List A) → length (last n xs) ≡ min (length xs) n
unfolding last
length-last n [] = ground arith
length-last n (x ∷ xs) = ground (arith, length-last n xs)

last_more {ℓ} :
    {A : Type ℓ} (n : ℕ) (x : A) (xs : List A) → n < length (x ∷ xs) → last n (x ∷ xs) ≡ last n xs
unfolding last
last_more n x xs h = ground arith

last_less {ℓ} : {A : Type ℓ} (n : ℕ) (xs : List A) → length xs ≤ n → last n xs ≡ xs
unfolding last
last_less n [] h = refl
last_less n (x ∷ xs) h = ground arith

last_nil {ℓ} : {A : Type ℓ} (n : ℕ) (y : A) → last n (last n [] ++ y ∷ []) ≡ last n (y ∷ [])
unfolding last
last_nil n y = refl

not_ltb : (n m : ℕ) → ltb n m ≡ false → m ≤ n
not_ltb n m h = ground arith

last-append {ℓ} :
    {A : Type ℓ} (n : ℕ) (xs : List A) (y : A)
    → last n (last n xs ++ y ∷ []) ≡ last n (xs ++ y ∷ [])
last-append n [] y = last_nil n y
last-append n (x ∷ xs) y = elim (Bool-cases (ltb n (length (x ∷ xs)))) [
  | inl e ↦
      let more = ltb→lt n (length (x ∷ xs)) e in
      ap (λ t. last n (t ++ y ∷ [])) (last_more n x xs more)
      ∙ last-append n xs y
      ∙ sym (last_more n x (xs ++ y ∷ []) (omega (arith, more, length-append xs (y ∷ []))))
  | inr e ↦ ap (λ t. last n (t ++ y ∷ [])) (last_less n (x ∷ xs) (not_ltb n _ e))
]

-- How many of the events have the type.
abbrev pub occurrences : {Data : Type 0} → String → List (EventRecord Data) → ℕ
occurrences key [] = 0
occurrences key (r ∷ rs) =
    let rest = occurrences key rs in if str_eq r.event_type key then rest + 1 else rest

occurrences-append :
    {Data : Type 0} (key : String) (rs : List (EventRecord Data)) (r : EventRecord Data)
    → occurrences key (rs ++ r ∷ [])
      ≡ (if str_eq r.event_type key then occurrences key rs + 1 else occurrences key rs)
occurrences-append key [] r = refl
occurrences-append key (s ∷ rs) r = ground (arith, occurrences-append key rs r)

count_of-insert :
    (key k : String) (n : ℕ) (counts : Dict ℕ)
    → count_of key (insert k n counts) ≡ (if str_eq k key then n else count_of key counts)
count_of-insert key k n [] = ground arith
count_of-insert key k n ((j, m) ∷ counts) = elim (Bool-cases (str_eq j k)) [
  | inl e ↦ ground (arith, eq_iff j k)
  | inr e ↦ elim (Bool-cases (str_eq j key)) [
    | inl same ↦ ground (arith, eq_iff j key, eq_iff k key, eq_refl k, eq_iff j k)
    | inr other ↦ ground (arith, count_of-insert key k n counts)
  ]
]

-- What a buffer knows of the events that it has seen.
pub record Remembers {Data Handle Time : Type 0} (es : List (EventRecord Data))
    (b : EventBuffer Data Handle Time) : Type 0 where
  pub newest : b.queue ≡ last b.capacity es
  pub seen : b.total_seen ≡ length es
  pub counted : (key : String) → count_of key b.counts ≡ occurrences key es
  pub at_least : 50 ≤ b.capacity
  pub at_most : b.capacity ≤ 5000

-- The runs of a buffer, with the events of each, in order.
pub data Run {Data Handle Time : Type 0}
    : List (EventRecord Data) → EventBuffer Data Handle Time → Type 0 where
  created : (capacity : ℕ) → Run [] (buffer_init capacity)
  event :
      (es : List (EventRecord Data)) (b : EventBuffer Data Handle Time) (r : EventRecord Data)
      → Run es b
      → Run (es ++ r ∷ []) (on_event r b)
  started :
      (es : List (EventRecord Data)) (b : EventBuffer Data Handle Time) (h : Handle) (now : Time)
      → Run es b
      → Run es (start h now b)
  stopped :
      (es : List (EventRecord Data)) (b : EventBuffer Data Handle Time)
      (unsubscribe : Handle → Result (Unit {0}) (Unit {0}))
      → Run es b
      → Run es (stop tt unsubscribe b).1

module _ {Data Handle Time : Type 0} where
  created-Remembers :
      (capacity : ℕ)
      → Remembers [] (buffer_init {Data = Data} {Handle = Handle} {Time = Time} capacity)
  unfolding buffer_init last
  created-Remembers capacity = record {
    newest = refl;
    seen = refl;
    counted = λ key. refl;
    at_least = ground arith;
    at_most = ground arith;
  }

  module _ (es : List (EventRecord Data)) (b : EventBuffer Data Handle Time)
      (m : Remembers es b) where
    event-Remembers : (r : EventRecord Data) → Remembers (es ++ r ∷ []) (on_event r b)
    unfolding on_event
    event-Remembers r = record {
      newest = ap (λ t. last b.capacity (t ++ r ∷ [])) m.newest ∙ last-append b.capacity es r;
      seen = omega (arith, m.seen, length-append es (r ∷ []));
      counted = λ key. ground (
        arith,
        eq_iff r.event_type key,
        m.counted key,
        m.counted r.event_type,
        count_of-insert key r.event_type (count_of r.event_type b.counts + 1) b.counts,
        occurrences-append key es r,
      );
      at_least = m.at_least;
      at_most = m.at_most;
    }

    start-Remembers : (h : Handle) (now : Time) → Remembers es (start h now b)
    unfolding start
    start-Remembers h now = elim (Option-cases b.remove) [
      | inl e ↦
          rw (e, start)
            (record {
              newest = m.newest;
              seen = m.seen;
              counted = m.counted;
              at_least = m.at_least;
              at_most = m.at_most;
            })
      | inr (k, e) ↦ rw (e, start) m
    ]

    stop-Remembers :
        (unsubscribe : Handle → Result (Unit {0}) (Unit {0}))
        → Remembers es (stop tt unsubscribe b).1
    unfolding stop
    stop-Remembers unsubscribe = elim (Option-cases b.remove) [
      | inl e ↦ rw (e, stop) m
      | inr (k, e) ↦
          rw (e, stop)
            (record {
              newest = m.newest;
              seen = m.seen;
              counted = m.counted;
              at_least = m.at_least;
              at_most = m.at_most;
            })
    ]

  -- After any run from its constructor, started and stopped at any point, the buffer holds the
  -- newest events that it has seen, in order and as many as its capacity, which lies between 50 and
  -- 5000; it counts all of them, and those of each type.
  pub Run-Remembers :
      (es : List (EventRecord Data)) (b : EventBuffer Data Handle Time) → Run es b → Remembers es b
  Run-Remembers _ _ (created capacity) = created-Remembers capacity
  Run-Remembers _ _ (event es b r run) = event-Remembers es b (Run-Remembers es b run) r
  Run-Remembers _ _ (started es b h now run) = start-Remembers es b (Run-Remembers es b run) h now
  Run-Remembers _ _ (stopped es b unsubscribe run) =
      stop-Remembers es b (Run-Remembers es b run) unsubscribe

  -- The counters of a run agree with it: the buffered and the dropped events are together all the
  -- events that were seen.
  pub stats-adds_up :
      (es : List (EventRecord Data)) (b : EventBuffer Data Handle Time)
      → Run es b
      → ((stats b).total_seen ≡ length es)
        × ((stats b).current_size + (stats b).dropped ≡ (stats b).total_seen)
        × ((stats b).current_size ≤ (stats b).capacity)
  unfolding stats
  stats-adds_up es b run =
      let m = Run-Remembers es b run in
      let size : length b.queue ≡ min (length es) b.capacity =
        ap length m.newest ∙ length-last b.capacity es in
      (m.seen, ground (arith, m.seen, size), ground (arith, size))
