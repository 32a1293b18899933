-- ===== src/Collectors/CacheKey.antt =====
-- `make_cache_key` of agent/src/agent/orchestrator/dispatch/cache.py. SHA-256 is an argument, and so is
-- `isoformat`, since the zone of a time is no part of the model.
use Prim.Native.String.{compare}
use text.Mathlib.Text.{is_lt}
use alph_e.Common.{◌<>◌, ℕ, String, List, [], ◌∷◌, json_text, json_list, if◌then◌else◌}
use alph_e.Schemas.{TimeRange, EnvironmentFingerprint}

insert_text : String → List String → List String
insert_text s [] = s ∷ []
insert_text s (t ∷ rest) = if is_lt (compare t s) then t ∷ insert_text s rest else s ∷ t ∷ rest

-- `sorted(xs)`, by code points
unfoldable pub sorted_texts : List String → List String
unfolding insert_text
sorted_texts [] = []
sorted_texts (s ∷ rest) = insert_text s (sorted_texts rest)

-- The canonical JSON up to the end of the time range, whose keys stand in their sorted order.
unfoldable pub key_prefix : String → String → String → List String → EnvironmentFingerprint → String
key_prefix incident_id collector_name question scope_services fingerprint =
    "{\"collector_name\":"
    <> json_text collector_name
    <> ",\"environment_fingerprint\":{\"account\":"
    <> json_text fingerprint.account
    <> ",\"cluster\":"
    <> json_text fingerprint.cluster
    <> ",\"deploy_revision\":"
    <> json_text fingerprint.deploy_revision
    <> ",\"region\":"
    <> json_text fingerprint.region
    <> ",\"rollout_generation\":"
    <> json_text fingerprint.rollout_generation
    <> "},\"incident_id\":"
    <> json_text incident_id
    <> ",\"question\":"
    <> json_text question
    <> ",\"scope_services\":"
    <> json_list (sorted_texts scope_services)
    <> ",\"time_range\":{\"end\":"

module _ (sha256 : String → String) (isoformat : ℕ → String) where
  -- `raw`: the text that is hashed
  unfoldable pub key_text :
      String → String → String → TimeRange → List String → EnvironmentFingerprint → String
  key_text incident_id collector_name question time_range scope_services fingerprint =
      key_prefix incident_id collector_name question scope_services fingerprint
      <> (json_text (isoformat time_range.end)
          <> (",\"start\":" <> json_text (isoformat time_range.start) <> "}}"))

  -- `make_cache_key`
  unfoldable pub make_cache_key :
      String → String → String → TimeRange → List String → EnvironmentFingerprint → String
  make_cache_key incident_id collector_name question time_range scope_services fingerprint =
      sha256 (key_text incident_id collector_name question time_range scope_services fingerprint)
