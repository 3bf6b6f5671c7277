-- ===== src/EventBuffer/Buffer.antt =====
-- provider/debug/event_buffer.py: `EventBuffer`. The deque is a list, the newest record last. `Data`
-- stands for the JSON data of an event, `Handle` for what `mass.subscribe` returns, `Time` for a
-- point in time; the age of a record is asked of a parameter, which has none for a timestamp that
-- does not parse. A size or limit below zero is clamped as zero is, so they are natural numbers.
use ma_provider_mcp.Prelude.{
  ℕ, ◌+◌, ◌-◌, String, Bool, true, false, not, ◌&&◌, Option, none, some, List, [], ◌∷◌, ◌++◌,
  length, ltb, str_eq, Dict, lookup, insert, contains, is_empty, get_or, Result, ok, if◌then◌else◌,
}

pub record EventRecord (Data : Type 0) : Type 0 where
  pub timestamp : String
  pub event_type : String
  pub object_id : Option String
  pub event_data : Data

abbrev pub max : ℕ → ℕ → ℕ
max a b = if ltb a b then b else a

abbrev pub min : ℕ → ℕ → ℕ
min a b = if ltb a b then a else b

-- xs[-n:] for a positive n, and what a deque of that size keeps
unfoldable pub last {ℓ} : {A : Type ℓ} → ℕ → List A → List A
last n [] = []
last n (x ∷ xs) = let rest = last n xs in if ltb n (length (x ∷ xs)) then rest else x ∷ xs

pub record EventBuffer (Data Handle Time : Type 0) : Type 0 where
  pub capacity : ℕ
  pub queue : List (EventRecord Data)
  pub counts : Dict ℕ
  pub total_seen : ℕ
  pub subscribed_since : Option Time
  pub remove : Option Handle

pub record EventBufferStats (Time : Type 0) : Type 0 where
  pub capacity : ℕ
  pub current_size : ℕ
  pub total_seen : ℕ
  pub dropped : ℕ
  pub subscribed_since : Option Time
  pub by_type : Dict ℕ

-- counts[key], 0 where it is missing
abbrev pub count_of : String → Dict ℕ → ℕ
count_of key counts = get_or (lookup key counts) 0

module _ {Data Handle Time : Type 0} where
  unfoldable pub buffer_init : ℕ → EventBuffer Data Handle Time
  buffer_init capacity = record {
    capacity = max 50 (min capacity 5000);
    queue = [];
    counts = [];
    total_seen = 0;
    subscribed_since = none;
    remove = none;
  }

  unfoldable pub start : Handle → Time → EventBuffer Data Handle Time → EventBuffer Data Handle Time
  start subscribed now b = elim b.remove [
    | none ↦ record b { remove = some subscribed; subscribed_since = some now }
    | some handle ↦ b
  ]

  -- the call of the handle may raise, and the state is reset all the same
  unfoldable pub stop {ℓ} :
      {E : Type 0} {A : Type ℓ}
      → A
      → (Handle → Result E A)
      → EventBuffer Data Handle Time
      → Result E A × EventBuffer Data Handle Time
  stop done unsubscribe b = elim b.remove [
    | none ↦ (ok done, b)
    | some handle ↦ (unsubscribe handle, record b { remove = none; subscribed_since = none })
  ]

  -- `_on_event`, with the record made
  unfoldable pub on_event :
      EventRecord Data → EventBuffer Data Handle Time → EventBuffer Data Handle Time
  on_event r b = record b {
    queue = last b.capacity (b.queue ++ r ∷ []);
    counts = insert r.event_type (count_of r.event_type b.counts + 1) b.counts;
    total_seen = b.total_seen + 1;
  }

  unfoldable pub stats : EventBuffer Data Handle Time → EventBufferStats Time
  stats b = record {
    capacity = b.capacity;
    current_size = length b.queue;
    total_seen = b.total_seen;
    dropped = b.total_seen - b.capacity;
    subscribed_since = b.subscribed_since;
    by_type = b.counts;
  }

-- What `snapshot` is called with, but the limit.
pub record Filters (Data : Type 0) : Type 0 where
  pub event_types : Option (List String)
  pub id_filter : Option String
  pub since_seconds : Option ℕ
  pub visible : Option (EventRecord Data → Bool)

abbrev other_id : String → Option String → Bool
other_id text none = true
other_id text (some id) = not (str_eq id text)

module _ {Data : Type 0} where
  abbrev pub wrong_type : Option (List String) → EventRecord Data → Bool
  wrong_type none r = false
  wrong_type (some types) r = not (is_empty types) && not (contains types r.event_type)

  abbrev pub wrong_id : Option String → EventRecord Data → Bool
  wrong_id none r = false
  wrong_id (some text) r = not (str_eq text "") && other_id text r.object_id

  abbrev pub hidden : Option (EventRecord Data → Bool) → EventRecord Data → Bool
  hidden none r = false
  hidden (some visible) r = not (visible r)

module _ {Data : Type 0} (too_old : ℕ → String → Option Bool) where
  abbrev pub expired : Option ℕ → EventRecord Data → Bool
  expired none r = false
  expired (some seconds) r = get_or (too_old seconds r.timestamp) true

  -- the records that no `continue` skips
  unfoldable pub results : Filters Data → List (EventRecord Data) → List (EventRecord Data)
  results f [] = []
  results f (r ∷ rs) =
      let rest = results f rs in
      if wrong_type f.event_types r
      then rest
      else if wrong_id f.id_filter r
      then rest
      else if expired f.since_seconds r
      then rest
      else if hidden f.visible r
      then rest
      else r ∷ rest

  unfoldable pub snapshot :
      {Handle Time : Type 0}
      → ℕ
      → Filters Data
      → EventBuffer Data Handle Time
      → List (EventRecord Data)
  snapshot limit f b = last (max 1 (min limit 1000)) (results f b.queue)
