-- ===== src/CommandPolicy/Exact.antt =====
-- provider/command_policy.py: the annotations, the command sets and `EXACT_POLICIES`.
use ma_provider_mcp.Prelude.{
  String, Bool, true, false, none, some, List, [], ◌∷◌, ◌++◌, Dict, contains, starts_with_any, ◌||◌,
}
use ma_provider_mcp.Capability.{
  Capability, config_read, config_write_core, config_write_player, config_write_provider,
  config_write_secret, control_media, control_playback, control_volume, debug_events, debug_logs,
  debug_providers, delete_queue, edit_favorites, edit_library, edit_playlists, edit_queue,
  query_library, query_metadata, query_players, system_admin,
}
use ma_provider_mcp.CommandPolicy.Decision.{
  CommandDecision, config_flow_submit, config_flow_abort, decision,
}

abbrev pub read_annotations : Dict Bool
read_annotations =
    ("readOnlyHint", true)
    ∷ ("destructiveHint", false)
    ∷ ("idempotentHint", true)
    ∷ ("openWorldHint", false)
    ∷ []

abbrev pub control_annotations : Dict Bool
control_annotations =
    ("readOnlyHint", false)
    ∷ ("destructiveHint", false)
    ∷ ("idempotentHint", false)
    ∷ ("openWorldHint", false)
    ∷ []

abbrev pub destructive_annotations : Dict Bool
destructive_annotations =
    ("readOnlyHint", false)
    ∷ ("destructiveHint", true)
    ∷ ("idempotentHint", false)
    ∷ ("openWorldHint", false)
    ∷ []

abbrev pub system_annotations : Dict Bool
system_annotations =
    ("readOnlyHint", false)
    ∷ ("destructiveHint", true)
    ∷ ("idempotentHint", false)
    ∷ ("openWorldHint", false)
    ∷ []

abbrev pub destructive_verbs : List String
destructive_verbs = "clear" ∷ "delete" ∷ "remove" ∷ "reset" ∷ "revoke" ∷ []

abbrev pub system_command_prefixes : List String
system_command_prefixes = "audio_analysis/" ∷ "dashboard/" ∷ "logging/" ∷ "tasks/" ∷ []

abbrev pub hard_denied_commands : List String
hard_denied_commands = "dashboard/register" ∷ "dashboard/unregister" ∷ "music/tracks/preview" ∷ []

abbrev pub hard_denied_prefixes : List String
hard_denied_prefixes = "auth/" ∷ []

abbrev pub storage_secret_commands : List String
storage_secret_commands = "storage/network_shares/add" ∷ "storage/network_shares/update" ∷ []

abbrev pub playback_commands : List String
playback_commands =
    "player_queues/autoplay" ∷ "player_queues/crossfade" ∷ "player_queues/dont_stop_the_music"
    ∷ "player_queues/next" ∷ "player_queues/overlay" ∷ "player_queues/pause" ∷ "player_queues/play"
    ∷ "player_queues/play_index" ∷ "player_queues/play_media" ∷ "player_queues/play_pause"
    ∷ "player_queues/previous" ∷ "player_queues/repeat" ∷ "player_queues/resume"
    ∷ "player_queues/seek" ∷ "player_queues/set_playback_speed" ∷ "player_queues/shuffle"
    ∷ "player_queues/skip" ∷ "player_queues/stop" ∷ "player_queues/transfer" ∷ "players/cmd/next"
    ∷ "players/cmd/pause" ∷ "players/cmd/play" ∷ "players/cmd/play_pause" ∷ "players/cmd/previous"
    ∷ "players/cmd/repeat" ∷ "players/cmd/resume" ∷ "players/cmd/seek" ∷ "players/cmd/shuffle"
    ∷ "players/cmd/stop" ∷ []

abbrev pub media_control_commands : List String
media_control_commands =
    "music/mark_played" ∷ "music/mark_unplayed" ∷ "players/cmd/play_announcement" ∷ []

abbrev pub volume_commands : List String
volume_commands =
    "players/cmd/group_volume" ∷ "players/cmd/group_volume_down" ∷ "players/cmd/group_volume_mute"
    ∷ "players/cmd/group_volume_up" ∷ "players/cmd/volume_down" ∷ "players/cmd/volume_mute"
    ∷ "players/cmd/volume_set" ∷ "players/cmd/volume_up" ∷ []

unfoldable pub command_is_hard_denied : String → Bool
command_is_hard_denied command =
    contains hard_denied_commands command || starts_with_any command hard_denied_prefixes

abbrev readonly_debug : Capability → CommandDecision
readonly_debug capability = decision read_annotations (capability ∷ [])

abbrev destructive_write : Capability → CommandDecision
destructive_write capability = decision destructive_annotations (capability ∷ [])

abbrev control : Capability → CommandDecision
control capability = decision control_annotations (capability ∷ [])

-- {command: decision for command in commands}
abbrev for_each : List String → CommandDecision → Dict CommandDecision
for_each [] d = []
for_each (command ∷ commands) d = (command, d) ∷ for_each commands d

unfoldable pub exact_policies : Dict CommandDecision
exact_policies =
    for_each playback_commands (control control_playback)
    ++ (for_each media_control_commands (control control_media)
        ++ (for_each volume_commands (control control_volume)
            ++ ((("music/radios/radio_tracks", decision read_annotations (query_library ∷ [])) ∷ [])
                ++ (for_each
                      ("music/recommendations" ∷ "music/recommendations/items"
                        ∷ "music/recently_played_items" ∷ [])
                      (decision read_annotations (query_metadata ∷ []))
                    ++ ((("players/tts_engines", decision read_annotations (query_players ∷ []))
                          ∷ (
                            "player_queues/save_as_playlist",
                            decision control_annotations (edit_playlists ∷ []),
                          )
                          ∷ ("player_queues/delete_item", destructive_write delete_queue)
                          ∷ ("player_queues/clear", destructive_write delete_queue)
                          ∷ ("fastmcp/queue/remove_items_safe", destructive_write delete_queue)
                          ∷ ("config/providers/reload", destructive_write config_write_provider)
                          ∷ (
                            "config/flows/submit",
                            (record {
                              annotations = control_annotations;
                              required_capabilities = [];
                              preflight = some config_flow_submit;
                              alternative_capabilities =
                                  config_write_provider ∷ config_write_player ∷ [];
                              secret_capability = some config_write_secret;
                              hard_denied = false;
                            }),
                          )
                          ∷ ("config/flows/get", decision read_annotations (config_read ∷ []))
                          ∷ (
                            "config/flows/abort",
                            (record {
                              annotations = destructive_annotations;
                              required_capabilities = [];
                              preflight = some config_flow_abort;
                              alternative_capabilities =
                                  config_write_provider ∷ config_write_player ∷ [];
                              secret_capability = none;
                              hard_denied = false;
                            }),
                          )
                          ∷ (
                            "players/create_group_player",
                            decision control_annotations (config_write_player ∷ []),
                          )
                          ∷ ("players/remove_group_player", destructive_write config_write_player)
                          ∷ ("players/remove", destructive_write config_write_player)
                          ∷ (
                            "players/add_currently_playing_to_favorites",
                            decision control_annotations (edit_favorites ∷ []),
                          )
                          ∷ (
                            "metadata/set_default_preferred_language",
                            decision control_annotations (config_write_core ∷ []),
                          )
                          ∷ (
                            "metadata/set_preferred_language",
                            decision control_annotations (edit_library ∷ []),
                          )
                          ∷ (
                            "metadata/update_metadata",
                            decision control_annotations (edit_library ∷ []),
                          )
                          ∷ ("fastmcp/debug/tail_log", readonly_debug debug_logs)
                          ∷ ("fastmcp/debug/log_stats", readonly_debug debug_logs)
                          ∷ ("fastmcp/debug/recent_events", readonly_debug debug_events)
                          ∷ ("fastmcp/debug/event_buffer_stats", readonly_debug debug_events)
                          ∷ ("fastmcp/debug/health", readonly_debug debug_providers)
                          ∷ ("fastmcp/debug/routes", readonly_debug debug_providers)
                          ∷ ("fastmcp/debug/packages", readonly_debug debug_providers)
                          ∷ ("party/skip", control control_playback)
                          ∷ [])
                        ++ (for_each ("party/add_to_queue" ∷ "party/boost_queue_item" ∷ [])
                              (decision control_annotations (edit_queue ∷ control_playback ∷ []))
                            ++ ((("party/url", control system_admin)
                                ∷ (
                                  "yandex_station/command",
                                  decision system_annotations (system_admin ∷ []),
                                )
                                ∷ []))))))))
