-- ===== src/App/Sweep/Tests.antt =====
-- A sweep on a store with six events and a provider that counts its calls.
use hidden_steps.Prelude.{
  Result, Text, [], codes, err, false, none, ok, refl, some, text_eq, true, unwrap_or, ℕ, ◌%◌, ◌∷◌,
  ◌≡◌, ◌⊎◌,
}
use hidden_steps.Recommendations.Extract.{extract_json_object}
use hidden_steps.Samples.{Node, counting, empty_store, in_order, one_code, tree_json, whole}
use hidden_steps.Domain.Privacy.{from_u8}
use hidden_steps.Gate.{new_gate}
use hidden_steps.Store.State.{get_privacy_state, privacy_row}
use hidden_steps.App.Sweep.{Clients, Engines, api_key_of, build_provider}
use hidden_steps.Store.Labels.{signal_type_from_str, signal_type_to_str}
use hidden_steps.Patterns.Key.{action_key, signal_type_label}
use hidden_steps.Store.Events.Refines.{inserted, store_changes}
use hidden_steps.Domain.Signal.{EventSummary}
use hidden_steps.Store.{EventStore, EventStoreError}
use hidden_steps.App.Sweep.Once.{log_expiry, sweep_once}
use hidden_steps.Store.Events.{delete_expired_events}
use hidden_steps.App.Sweep.Gated.{SweptFrom, sweep_once-Sent}
use hidden_steps.Recommendations.Synthesizer.{try_build}
use hidden_steps.Provider.{LlmProvider, ProviderError}
use hidden_steps.App.Providers.{SetAiProviderRequest, config_of}
use hidden_steps.App.Connectivity.{no_model_selected, probe, test_provider_connectivity}
use hidden_steps.App.Connectivity.Laws.{answers, test_of, test_provider_connectivity-build_provider}
use hidden_steps.App.Tests.{counting_vault}
use hidden_steps.App.Observation.Tests.{captured, observing_store}

abbrev counting_clients : Clients ℕ ℕ
counting_clients = record {
  ollama = λ e m. counting true;
  anthropic = λ e k m. counting false;
  openai_compatible = λ e k m. counting false;
  trim = λ t. t;
}

abbrev engines : Engines tree_json whole ℕ
engines = record {
  extension = λ t. none;
  seconds_between = λ a b. 0;
  hash = in_order;
  matchers = record {
    occurrence_mention = λ t. [];
    spelled_compound = λ t. [];
    spelled_single = λ t. [];
    once_or_twice = λ t. [];
  };
  now_utc = λ w. w;
  from_str = λ t. err (codes "no fields");
  prompt = λ d. record { system = none; prompt = []; max_tokens = none; think = none };
  value_eq = λ a b. false;
  message = λ e. codes "gate";
  synthesis_message = λ e. codes "synthesis";
  store_message = λ e. codes "store";
}

abbrev seen : ℕ → EventSummary Node
seen n = record captured { occurred_at = n; id = none; source_id = n % 2 ∷ [] }

-- Six events that alternate between two sources, and a provider on the device.
abbrev watched_store : EventStore ℕ
unfolding store_changes
watched_store =
    record (store_changes one_code
      (inserted (seen 6)
        ∷ inserted (seen 5)
        ∷ inserted (seen 4)
        ∷ inserted (seen 3)
        ∷ inserted (seen 2)
        ∷ inserted (seen 1)
        ∷ [])
      observing_store) {
        llm_providers =
            record {
              id = codes "ollama";
              provider_type = codes "ollama";
              is_local = true;
              model_name = some (codes "m");
              endpoint = none;
              vault_key_ref = none;
              active = true;
            }
            ∷ [];
      }

abbrev Swept : Type 0
Swept = (Result (Unit {0}) EventStoreError × EventStore ℕ) × ℕ

abbrev swept : Swept
unfolding sweep_once
swept =
    unwrap_or
      (sweep_once tree_json one_code whole counting_clients counting_vault engines new_gate 10
        watched_store 0)
      ((ok tt, empty_store), 0)

sweep_returns :
    sweep_once tree_json one_code whole counting_clients counting_vault engines new_gate 10
      watched_store 0
    ≡ some swept
unfolding sweep_once get_privacy_state watched_store from_u8 privacy_row signal_type_from_str
    text_eq signal_type_to_str action_key signal_type_label
sweep_returns = refl

-- Both attempts of the one pattern reached the provider.
sweep_calls : swept.1 ≡ 2
unfolding sweep_once get_privacy_state watched_store from_u8 privacy_row signal_type_from_str
    text_eq signal_type_to_str action_key signal_type_label try_build extract_json_object
sweep_calls = refl

sweep_once-Sent_example :
    SweptFrom tree_json one_code whole counting_clients counting_vault engines new_gate 10
      (log_expiry tree_json one_code whole counting_clients counting_vault engines new_gate 10
        (delete_expired_events one_code 10 watched_store))
      0
      swept.1
sweep_once-Sent_example =
    sweep_once-Sent tree_json one_code whole counting_clients counting_vault engines new_gate 10
      watched_store 0 swept sweep_returns

-- A provider on the device, without a key.
abbrev local : SetAiProviderRequest
local = record {
  id = codes "ollama";
  provider_type = codes "ollama";
  is_local = true;
  model_name = some (codes "m");
  endpoint = none;
  api_key = none;
}

abbrev failure_message : ProviderError → Text
failure_message e = codes "failed"

test_provider_connectivity-build_provider_example :
    ((build_provider counting_clients counting_vault (config_of local none) 0 ≡ none)
      × (test_provider_connectivity counting_clients failure_message (test_of local) 0
          ≡ (record { is_ok = false; error = some no_model_selected }, 0)))
    ⊎ ((provider : LlmProvider ℕ ℕ) × (build_provider counting_clients counting_vault
            (config_of local none)
            0
          ≡ some provider)
        × ((test_provider_connectivity counting_clients failure_message (test_of local) 0).1
            ≡ (provider.complete probe 0).1)
        × ((test_provider_connectivity counting_clients failure_message (test_of local) 0).0.is_ok
            ≡ answers (provider.complete probe 0).0))
unfolding api_key_of
test_provider_connectivity-build_provider_example =
    test_provider_connectivity-build_provider counting_clients counting_vault failure_message local
      none 0 refl
