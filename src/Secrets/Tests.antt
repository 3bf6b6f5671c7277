-- ===== src/Secrets/Tests.antt =====
-- The gate on secret writes, after tests/test_secret_handler.py.
use ma_provider_mcp.Prelude.{
  ◌≡◌, refl, inl, Bool, true, false, [], ◌∷◌, Dict, keys, Member, ok, err,
}
use ma_provider_mcp.Secrets.Gate.{
  Entries, sequence, entries_by_key, is_secret_key, first_secret, gate_secret_writes,
  gate_secret_writes-passes, gate_secret_writes-refuses,
}

abbrev entries : Entries
entries = sequence (
    record { key = "host"; entry_type = "string" }
    ∷ record { key = "password"; entry_type = "secure_string" }
    ∷ [])

abbrev both : Dict Bool
both = ("host", true) ∷ ("password", true) ∷ []

abbrev plain : Dict Bool
plain = ("host", true) ∷ []

runs :
    (gate_secret_writes "secure_string" entries both true ≡ ok tt)
    × (gate_secret_writes "secure_string" entries both false ≡ err "password")
    × (gate_secret_writes "secure_string" entries plain false ≡ ok tt)
unfolding gate_secret_writes first_secret is_secret_key entries_by_key
runs = (refl, refl, refl)

gate_secret_writes-passes_example : is_secret_key "secure_string" entries "host" ≡ false
gate_secret_writes-passes_example =
    gate_secret_writes-passes "secure_string" entries plain "host" runs.2 (inl refl)

gate_secret_writes-refuses_example :
    (false ≡ false)
    × Member "password" (keys both)
    × (is_secret_key "secure_string" entries "password" ≡ true)
gate_secret_writes-refuses_example =
    gate_secret_writes-refuses "secure_string" entries both false "password" runs.1
