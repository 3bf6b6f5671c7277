-- ===== src/TargetFilters/Tests.antt =====
-- provider/target_filters.py for a user who is bound to one player and one provider.
use ma_provider_mcp.Prelude.{
  ℕ, ◌≡◌, refl, inl, String, true, false, none, some, List, [], ◌∷◌, str_eq, ok, err,
}
use ma_provider_mcp.TargetFilters.Rules.{
  player, music_provider, TargetRule, CollectionRule, target_rules, target_rule, collection_rule,
  music_provider_attributes,
}
use ma_provider_mcp.TargetFilters.Targets.{
  word, Argument, unshared, Library, User, insufficient_permissions, link_ids, reference_ids,
  enforce_target_filters,
}
use ma_provider_mcp.TargetFilters.Rows.{Row, Listing, rows, row_ids, filter_collection_result}
use ma_provider_mcp.TargetFilters.Visible.{listing_by, visible, filter_collection_result-visible}
use ma_provider_mcp.TargetFilters.Enforced.{is_target_allowed, enforce_target_filters-allowed}

abbrev library : Library
library = record {
  share_url = λ value. unshared;
  builtin_url_schemes = "rtsp://" ∷ [];
  is_media_type = λ media. str_eq media "track";
  get_provider =
      λ submitted unavailable. some (record { instance_id = submitted; is_music = true });
}

abbrev user : User
user = record {
  is_admin = false;
  player_filter = some ("kitchen" ∷ []);
  provider_filter = some ("spotify1" ∷ []);
}

abbrev track : String → String → Row ℕ
track provider uri = record {
  identity = record {
    attributes = ("provider", provider) ∷ [];
    provider_mappings = [];
    uri = some uri;
    path = none;
  };
  content = 1;
}

abbrev tracks : Listing ℕ
tracks = rows (
    track "spotify" "spotify1://track/1"
    ∷ track "tidal" "tidal1://track/1"
    ∷ track "library" "library://track/1"
    ∷ [])

abbrev listing_rule : CollectionRule
listing_rule = record {
  command_pattern = "music/*/library_items";
  target_kind = music_provider;
  row_attributes = music_provider_attributes;
}

listed : collection_rule "music/tracks/library_items" ≡ some listing_rule
unfolding collection_rule
listed = refl

shown :
    filter_collection_result library (some user) "music/tracks/library_items" tracks
    ≡ rows (track "spotify" "spotify1://track/1" ∷ track "library" "library://track/1" ∷ [])
unfolding filter_collection_result collection_rule row_ids link_ids
shown = refl

filter_collection_result-visible_example :
    filter_collection_result library (some user) "music/tracks/library_items" tracks
    ≡ listing_by (visible library user music_provider) tracks
filter_collection_result-visible_example =
    filter_collection_result-visible library user "music/tracks/library_items" listing_rule tracks
      listed

abbrev arguments : String → List (String × Argument)
arguments target = ("player_id", word target) ∷ []

abbrev player_rule : TargetRule
player_rule = record { command_pattern = "players/*"; argument = "player_id"; target_kind = player }

ruled : target_rule "players/cmd/play" "player_id" ≡ some player_rule
unfolding target_rule target_rules
ruled = refl

passes : enforce_target_filters library user "players/cmd/play" (arguments "kitchen") ≡ ok tt
unfolding enforce_target_filters target_rule target_rules
passes = refl

refused :
    enforce_target_filters library user "players/cmd/play" (arguments "bedroom")
    ≡ err insufficient_permissions
unfolding enforce_target_filters target_rule target_rules
refused = refl

media : reference_ids library (word "spotify1:track:4") ≡ "spotify1" ∷ []
unfolding reference_ids link_ids
media = refl

enforce_target_filters-allowed_example : is_target_allowed library user player "kitchen" ≡ true
enforce_target_filters-allowed_example =
    enforce_target_filters-allowed library user "players/cmd/play" (arguments "kitchen") "player_id"
      (word "kitchen") player_rule "kitchen" refl passes (inl refl) refl ruled (inl refl)
