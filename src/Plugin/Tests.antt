-- ===== src/Plugin/Tests.antt =====
-- A manifest that asks for screenshots at a lower level.
use hidden_steps.Prelude.{[], any, codes, false, ltb, ok, ◌&&◌, ◌↔◌, ◌∷◌, ◌≡◌, ◌≤◌}
use hidden_steps.Plugin.{
  PluginManifest, observation_source, observe_screenshot, policy_read, requires_level_four,
  validate,
}
use hidden_steps.Plugin.Laws.{validate-ok_iff}

abbrev greedy : PluginManifest
greedy = record {
  id = codes "p";
  name = codes "p";
  version = codes "1";
  plugin_type = observation_source;
  min_privacy_level = 2;
  capabilities = policy_read ∷ observe_screenshot ∷ [];
}

validate-ok_iff_example : (validate greedy ≡ ok tt) ↔ (
    (2 ≤ 4)
    × ((any requires_level_four (policy_read ∷ observe_screenshot ∷ []) && ltb 2 4) ≡ false))
validate-ok_iff_example = validate-ok_iff greedy
