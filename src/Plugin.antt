-- ===== src/Plugin.antt =====
-- crates/plugin-host/src/manifest.rs: what a plugin's manifest may declare.
pub mod Laws
mod Tests
use hidden_steps.Prelude.{
  Bool, List, Result, Text, [], err, false, if◌then◌else◌, ltb, ok, true, ℕ, ◌&&◌, ◌∷◌,
}

pub data Capability : Type 0 where
  observe_active_window observe_clipboard_metadata observe_file_operations : Capability
  observe_screenshot network_outbound filesystem_read_metadata : Capability
  provider_llm provider_embedding policy_read : Capability

unfoldable pub requires_level_four : Capability → Bool
requires_level_four observe_screenshot = true
requires_level_four _ = false

pub data PluginType : Type 0 where
  observation_source llm_provider embedding_provider automation_provider : PluginType
  recommendation_engine pattern_detector policy_loader integration : PluginType

pub record PluginManifest : Type 0 where
  pub id : Text
  pub name : Text
  pub version : Text
  pub plugin_type : PluginType
  pub min_privacy_level : ℕ
  pub capabilities : List Capability

pub data ManifestError : Type 0 where
  capability_below_required_level : Capability → ℕ → ManifestError
  invalid_privacy_level : ℕ → ManifestError

-- The loop over the capabilities.
unfoldable pub check_capabilities : ℕ → List Capability → Result {0, 0} Unit ManifestError
unfolding requires_level_four
check_capabilities level [] = ok tt
check_capabilities level (c ∷ cs) =
    let rest = check_capabilities level cs in
    if requires_level_four c && ltb level 4
    then err (capability_below_required_level c level)
    else rest

unfoldable pub validate : PluginManifest → Result {0, 0} Unit ManifestError
unfolding check_capabilities
validate manifest =
    if ltb 4 manifest.min_privacy_level
    then err (invalid_privacy_level manifest.min_privacy_level)
    else check_capabilities manifest.min_privacy_level manifest.capabilities
