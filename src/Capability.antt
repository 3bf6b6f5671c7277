-- ===== src/Capability.antt =====
-- provider/capabilities.py: the `Capability` enumeration, its string values, and the tests that
-- the policies make on their prefixes.
use ma_provider_mcp.Prelude.{
  ◌≡◌, refl, String, true, false, Option, none, some, List, [], ◌∷◌, str_eq,
}

pub data Capability : Type 0 where
  query_library query_queue query_players query_metadata : Capability
  control_playback control_volume control_players control_media : Capability
  edit_library edit_queue edit_playlists edit_favorites : Capability
  delete_library delete_queue delete_playlists delete_favorites : Capability
  debug_inspect debug_logs debug_events debug_providers : Capability
  config_read config_write_provider config_write_core config_write_player : Capability
  config_write_secret system_admin : Capability

unfoldable pub Capability-discrete : Discrete Capability
Capability-discrete = hlevel

-- for capability in Capability
abbrev pub all_capabilities : List Capability
all_capabilities =
    query_library ∷ query_queue ∷ query_players ∷ query_metadata ∷ control_playback ∷ control_volume
    ∷ control_players ∷ control_media ∷ edit_library ∷ edit_queue ∷ edit_playlists ∷ edit_favorites
    ∷ delete_library ∷ delete_queue ∷ delete_playlists ∷ delete_favorites ∷ debug_inspect
    ∷ debug_logs ∷ debug_events ∷ debug_providers ∷ config_read ∷ config_write_provider
    ∷ config_write_core ∷ config_write_player ∷ config_write_secret ∷ system_admin ∷ []

-- str(capability)
abbrev pub value : Capability → String
value query_library = "query:library"
value query_queue = "query:queue"
value query_players = "query:players"
value query_metadata = "query:metadata"
value control_playback = "control:playback"
value control_volume = "control:volume"
value control_players = "control:players"
value control_media = "control:media"
value edit_library = "edit:library"
value edit_queue = "edit:queue"
value edit_playlists = "edit:playlists"
value edit_favorites = "edit:favorites"
value delete_library = "delete:library"
value delete_queue = "delete:queue"
value delete_playlists = "delete:playlists"
value delete_favorites = "delete:favorites"
value debug_inspect = "debug:inspect"
value debug_logs = "debug:logs"
value debug_events = "debug:events"
value debug_providers = "debug:providers"
value config_read = "config:read"
value config_write_provider = "config:write:provider"
value config_write_core = "config:write:core"
value config_write_player = "config:write:player"
value config_write_secret = "config:write:secret"
value system_admin = "system:admin"

-- Capability(text), `none` where the enumeration has no such value
abbrev pub find : String → List Capability → Option Capability
find text [] = none
find text (c ∷ cs) = elim (str_eq (value c) text) [ true ↦ some c | false ↦ find text cs ]

abbrev pub of_string : String → Option Capability
of_string text = find text all_capabilities

pub of_string-value : (c : Capability) → of_string (value c) ≡ some c
of_string-value query_library = refl
of_string-value _ = refl

-- The part of a value before its first colon.
pub data Kind : Type 0 where
  query control edit delete debug config system : Kind

abbrev pub kind : Capability → Kind
kind query_library = query
kind query_queue = query
kind query_players = query
kind query_metadata = query
kind control_playback = control
kind control_volume = control
kind control_players = control
kind control_media = control
kind edit_library = edit
kind edit_queue = edit
kind edit_playlists = edit
kind edit_favorites = edit
kind delete_library = delete
kind delete_queue = delete
kind delete_playlists = delete
kind delete_favorites = delete
kind debug_inspect = debug
kind debug_logs = debug
kind debug_events = debug
kind debug_providers = debug
kind config_read = config
kind config_write_provider = config
kind config_write_core = config
kind config_write_player = config
kind config_write_secret = config
kind system_admin = system
