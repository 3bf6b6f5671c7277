-- ===== src/TargetFilters/Rules.antt =====
-- provider/target_filters.py: the kinds of targets and the tables of rules.
use Prim.Native.Char.{code}
use Prim.Native.String.{String}
use ma_provider_mcp.Prelude.{
  ℕ, Bool, true, false, ◌&&◌, ◌||◌, Option, none, some, List, [], ◌∷◌, str_eq, ◌==◌, if◌then◌else◌,
}

pub data TargetKind : Type 0 where
  player players music_provider music_providers music_reference music_references : TargetKind

pub record TargetRule : Type 0 where
  pub command_pattern : String
  pub argument : String
  pub target_kind : TargetKind

pub record CollectionRule : Type 0 where
  pub command_pattern : String
  pub target_kind : TargetKind
  pub row_attributes : List String

abbrev rule : String → String → TargetKind → TargetRule
rule command_pattern argument target_kind = record {
  command_pattern = command_pattern;
  argument = argument;
  target_kind = target_kind;
}

abbrev pub player_row_attributes : List String
player_row_attributes = "player_id" ∷ "queue_id" ∷ []

abbrev pub music_provider_attributes : List String
music_provider_attributes =
    "provider_instance_id" ∷ "provider_instance" ∷ "provider_domain" ∷ "provider" ∷ []

abbrev listing : String → TargetKind → List String → CollectionRule
listing command_pattern target_kind row_attributes = record {
  command_pattern = command_pattern;
  target_kind = target_kind;
  row_attributes = row_attributes;
}

abbrev pub collection_rules : List CollectionRule
collection_rules =
    listing "players/all" player player_row_attributes
    ∷ listing "player_queues/all" player player_row_attributes
    ∷ listing "music/search" music_provider music_provider_attributes
    ∷ listing "music/*/library_items" music_provider music_provider_attributes
    ∷ listing "music/browse" music_provider music_provider_attributes
    ∷ []

abbrev pub single_item_rules : List String
single_item_rules = "music/item" ∷ "music/item_by_uri" ∷ "music/get_library_item" ∷ []

unfoldable pub target_rules : List TargetRule
target_rules =
    rule "players/*" "player_id" player
    ∷ rule "players/*" "target_player" player
    ∷ rule "players/*" "source_player" player
    ∷ rule "players/*" "child_player_ids" players
    ∷ rule "players/*" "player_ids" players
    ∷ rule "players/*" "player_ids_to_add" players
    ∷ rule "players/*" "player_ids_to_remove" players
    ∷ rule "players/*" "members" players
    ∷ rule "player_queues/*" "player_id" player
    ∷ rule "player_queues/*" "queue_id" player
    ∷ rule "player_queues/*" "source_queue_id" player
    ∷ rule "player_queues/*" "target_queue_id" player
    ∷ rule "player_queues/*" "queue_ids" players
    ∷ rule "config/players/*" "player_id" player
    ∷ rule "config/player_queues/*" "queue_id" player
    ∷ rule "config/dsp_presets/*" "player_id" player
    ∷ rule "config/dsp_irs/*" "player_id" player
    ∷ rule "fastmcp/*" "player_id" player
    ∷ rule "fastmcp/*" "queue_id" player
    ∷ rule "music/*" "instance_id" music_provider
    ∷ rule "music/*" "provider" music_provider
    ∷ rule "music/*" "provider_instance_id" music_provider
    ∷ rule "music/*" "provider_instance_or_domain" music_provider
    ∷ rule "music/*" "provider_instance_id_or_domain" music_provider
    ∷ rule "music/*" "providers" music_providers
    ∷ rule "music/*" "provider_instance_ids" music_providers
    ∷ rule "audio_analysis/*" "provider_instance_id_or_domain" music_provider
    ∷ rule "music/browse" "path" music_reference
    ∷ rule "music/item_by_uri" "uri" music_reference
    ∷ rule "music/verify_item_uri" "uri" music_reference
    ∷ rule "music/favorites/add_item" "item" music_reference
    ∷ rule "music/library/add_item" "item" music_reference
    ∷ rule "music/refresh_item" "media_item" music_reference
    ∷ rule "music/mark_played" "media_item" music_reference
    ∷ rule "music/mark_unplayed" "media_item" music_reference
    ∷ rule "music/add_provider_mapping" "mapping" music_reference
    ∷ rule "music/remove_provider_mapping" "mapping" music_reference
    ∷ rule "music/playlists/add_playlist_tracks" "uris" music_references
    ∷ rule "player_queues/play_media" "media" music_references
    ∷ rule "player_queues/play_media" "start_item" music_reference
    ∷ rule "metadata/update_metadata" "item" music_reference
    ∷ rule "metadata/get_track_lyrics" "track" music_reference
    ∷ []

-- fnmatchcase, for patterns whose only special character is `*`
abbrev star : (String → Bool) → String → Bool
star rest String.[] = rest String.[]
star rest (String.◌∷◌ c s) = rest (String.◌∷◌ c s) || star rest s

abbrev one : ℕ → (String → Bool) → String → Bool
one c rest String.[] = false
one c rest (String.◌∷◌ d s) = (code d == c) && rest s

abbrev is_end : String → Bool
is_end String.[] = true
is_end (String.◌∷◌ c s) = false

abbrev pub fnmatchcase : String → String → Bool
fnmatchcase String.[] text = is_end text
fnmatchcase (String.◌∷◌ c pattern) text =
    let rest = fnmatchcase pattern in
    if code c == b'*' then star rest text else one (code c) rest text

abbrev first_rule : List TargetRule → String → String → Option TargetRule
first_rule [] command argument = none
first_rule (r ∷ rules) command argument =
    let rest = first_rule rules command argument in
    if str_eq r.argument argument && fnmatchcase r.command_pattern command then some r else rest

-- `target_rule`
unfoldable pub target_rule : String → String → Option TargetRule
target_rule command argument = first_rule target_rules command argument

abbrev pub first_listing : List CollectionRule → String → Option CollectionRule
first_listing [] command = none
first_listing (r ∷ rules) command =
    let rest = first_listing rules command in
    if fnmatchcase r.command_pattern command then some r else rest

-- `collection_rule`
unfoldable pub collection_rule : String → Option CollectionRule
collection_rule command = first_listing collection_rules command

abbrev pub is_player_kind : TargetKind → Bool
is_player_kind player = true
is_player_kind players = true
is_player_kind _ = false

abbrev pub is_sequence_kind : TargetKind → Bool
is_sequence_kind players = true
is_sequence_kind music_providers = true
is_sequence_kind _ = false

abbrev pub is_reference_kind : TargetKind → Bool
is_reference_kind music_reference = true
is_reference_kind music_references = true
is_reference_kind _ = false
