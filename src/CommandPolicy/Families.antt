-- ===== src/CommandPolicy/Families.antt =====
-- provider/command_policy.py: the tables of command families and of scopes.
use ma_provider_mcp.Prelude.{
  String, Bool, true, false, Option, none, some, List, [], ◌∷◌, ◌++◌, Dict,
}
use ma_provider_mcp.Capability.{
  Capability, config_read, config_write_core, config_write_player, config_write_provider,
  control_media, control_playback, control_players, control_volume, debug_inspect, debug_providers,
  delete_favorites, delete_library, delete_playlists, delete_queue, edit_favorites, edit_library,
  edit_playlists, edit_queue, query_library, query_metadata, query_players, query_queue,
  system_admin,
}
use ma_provider_mcp.CommandPolicy.Decision.{
  Operation, read, control, write, delete, system, FamilyPolicy,
}

-- One column of a family, where it is declared.
abbrev column : Operation → Option Capability → List (Operation × Capability)
column operation none = []
column operation (some capability) = (operation, capability) ∷ []

-- `_family`
abbrev pub family :
    String
    → Option Capability
    → Option Capability
    → Option Capability
    → Option Capability
    → Bool
    → FamilyPolicy
family prefix r c w d readonly = record {
  prefix = prefix;
  capabilities = column read r ++ (column control c ++ (column write w ++ column delete d));
  readonly = readonly;
}

unfoldable pub family_policies : List FamilyPolicy
family_policies =
    family "music/playlists/" (some query_library) none (some edit_playlists)
      (some delete_playlists) false
    ∷ family "music/favorites/" (some query_library) none (some edit_favorites)
        (some delete_favorites) false
    ∷ family "music/" (some query_library) (some control_media) (some edit_library)
        (some delete_library) false
    ∷ family "smart_playlists/" (some query_library) none (some edit_playlists)
        (some delete_playlists) false
    ∷ family "statistics/" (some query_library) none none none true
    ∷ family "players/cmd/volume_" none (some control_volume) none none false
    ∷ family "players/cmd/" none (some control_players) none none false
    ∷ family "players/sleep_timer/" (some query_players) (some control_playback) none
        (some control_playback) false
    ∷ family "players/" (some query_players) none none none false
    ∷ family "player_queues/" (some query_queue) (some edit_queue) (some edit_queue)
        (some delete_queue) false
    ∷ family "metadata/" (some query_metadata) none none none false
    ∷ family "config/providers" (some config_read) none (some config_write_provider) none false
    ∷ family "config/core" (some config_read) none (some config_write_core) none false
    ∷ family "config/players" (some config_read) none (some config_write_player) none false
    ∷ family "config/player_queues" (some config_read) none (some config_write_player) none false
    ∷ family "config/dsp_presets/" (some config_read) none (some config_write_player) none false
    ∷ family "config/dsp_irs/" (some config_read) none (some config_write_player) none false
    ∷ family "storage/" (some config_read) none (some config_write_provider) none false
    ∷ family "streams/" (some config_read) none (some config_write_core) none false
    ∷ family "diagnostics/" (some debug_inspect) none none none true
    ∷ family "providers" (some debug_providers) none none none false
    ∷ []

abbrev scope_family_policy : String → List (Operation × Capability) → FamilyPolicy
scope_family_policy scope columns = record {
  prefix = scope;
  capabilities = columns;
  readonly = false;
}

unfoldable pub scope_families : Dict FamilyPolicy
scope_families =
    ("library.read", scope_family_policy "library.read" ((read, query_library) ∷ []))
    ∷ (
      "library.write",
      scope_family_policy "library.write" ((write, edit_library) ∷ (delete, delete_library) ∷ []),
    )
    ∷ (
      "library.manage",
      scope_family_policy "library.manage" ((write, edit_library) ∷ (delete, delete_library) ∷ []),
    )
    ∷ ("players.read", scope_family_policy "players.read" ((read, query_players) ∷ []))
    ∷ ("players.control", scope_family_policy "players.control" ((control, control_players) ∷ []))
    ∷ ("queues.read", scope_family_policy "queues.read" ((read, query_queue) ∷ []))
    ∷ (
      "queues.control",
      scope_family_policy "queues.control" ((control, edit_queue) ∷ (delete, delete_queue) ∷ []),
    )
    ∷ ("providers.read", scope_family_policy "providers.read" ((read, debug_providers) ∷ []))
    ∷ ("config.players.read", scope_family_policy "config.players.read" ((read, config_read) ∷ []))
    ∷ (
      "config.providers.read",
      scope_family_policy "config.providers.read" ((read, config_read) ∷ []),
    )
    ∷ ("config.core.read", scope_family_policy "config.core.read" ((read, config_read) ∷ []))
    ∷ (
      "config.players.write",
      scope_family_policy "config.players.write" ((write, config_write_player) ∷ []),
    )
    ∷ (
      "config.providers.write",
      scope_family_policy "config.providers.write" ((write, config_write_provider) ∷ []),
    )
    ∷ (
      "config.providers.own",
      scope_family_policy "config.providers.own" ((write, config_write_provider) ∷ []),
    )
    ∷ (
      "config.core.write",
      scope_family_policy "config.core.write" ((write, config_write_core) ∷ []),
    )
    ∷ ("system.read", scope_family_policy "system.read" ((system, system_admin) ∷ []))
    ∷ ("system.manage", scope_family_policy "system.manage" ((system, system_admin) ∷ []))
    ∷ []
