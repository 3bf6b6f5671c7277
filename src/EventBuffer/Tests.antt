-- ===== src/EventBuffer/Tests.antt =====
-- The event buffer, after tests/test_event_buffer.py, and its theorems at a short run.
use ma_provider_mcp.Prelude.{
  ℕ, ◌+◌, ◌≤◌, ◌≡◌, refl, String, Bool, true, false, Option, none, some, List, [], ◌∷◌, ◌++◌,
  length, filter, ok,
}
use ma_provider_mcp.EventBuffer.Buffer.{
  EventRecord, EventBuffer, Filters, last, min, buffer_init, start, stop, on_event, stats, results,
  snapshot,
}
use ma_provider_mcp.EventBuffer.History.{
  Remembers, Run, created, event, started, Run-Remembers, stats-adds_up,
}
use ma_provider_mcp.EventBuffer.Snapshots.{passes, snapshot-newest}

abbrev record_of : String → ℕ → EventRecord ℕ
record_of event_type n = record {
  timestamp = "2026-01-01T00:00:00";
  event_type = event_type;
  object_id = some "p1";
  event_data = n;
}

abbrev changed : EventRecord ℕ
changed = record_of "player_updated" 1

abbrev added : EventRecord ℕ
added = record_of "queue_added" 2

abbrev buffer : EventBuffer ℕ ℕ ℕ
buffer = on_event added (on_event changed (start 7 0 (buffer_init 10)))

buffer-Run : Run (changed ∷ added ∷ []) buffer
buffer-Run = event (changed ∷ []) _ added (event [] _ changed (started [] _ 7 0 (created 10)))

abbrev only_added : Filters ℕ
only_added = record {
  event_types = some ("queue_added" ∷ []);
  id_filter = some "";
  since_seconds = none;
  visible = none;
}

-- No timestamp parses.
abbrev no_age : ℕ → String → Option Bool
no_age seconds text = none

runs :
    (last {A = ℕ} 2 (1 ∷ 2 ∷ 3 ∷ []) ≡ 2 ∷ 3 ∷ [])
    × (buffer.capacity ≡ 50)
    × ((stats buffer).by_type ≡ ("player_updated", 1) ∷ ("queue_added", 1) ∷ [])
    × (snapshot no_age 0 only_added buffer ≡ added ∷ [])
    × ((stop {E = Bool} true (λ h. ok false) buffer).1.remove ≡ none)
unfolding last buffer_init start stop on_event stats results snapshot
runs = (refl, refl, refl, refl, refl)

Run-Remembers_example : Remembers (changed ∷ added ∷ []) buffer
Run-Remembers_example = Run-Remembers (changed ∷ added ∷ []) buffer buffer-Run

stats-adds_up_example :
    ((stats buffer).total_seen ≡ 2)
    × ((stats buffer).current_size + (stats buffer).dropped ≡ (stats buffer).total_seen)
    × ((stats buffer).current_size ≤ (stats buffer).capacity)
stats-adds_up_example = stats-adds_up (changed ∷ added ∷ []) buffer buffer-Run

snapshot-newest_example :
    (length (snapshot no_age 0 only_added buffer)
      ≡ min (length (filter (passes no_age only_added) buffer.queue)) 1)
    × ((older : List (EventRecord ℕ)) × (older ++ snapshot no_age 0 only_added buffer
          ≡ filter (passes no_age only_added) buffer.queue))
snapshot-newest_example = snapshot-newest no_age 0 only_added buffer
