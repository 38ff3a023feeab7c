-- ===== src/App/Providers.antt =====
-- apps/desktop/src-tauri/src/commands.rs: the choice of the provider. The vault of the operating
-- system and its errors are outside the program, in `World`.
pub mod Secret
use hidden_steps.Prelude.{
  Bool, List, Option, Result, Text, codes, err, false, if◌then◌else◌, none, not, ok, some, true, ℕ,
  ◌++◌,
}
use hidden_steps.Domain.Pattern.{LlmProviderConfig, active}
use hidden_steps.Json.{Json}
use hidden_steps.Policy.{is_provider_allowed}
use hidden_steps.Store.{Engine}
use hidden_steps.Store.Providers.{list_llm_providers, set_active_llm_provider, upsert_llm_provider}
use hidden_steps.App.{
  AppState, CommandError, call_store, log_audit, log_user, provider_not_approved, read_store,
  vault_error,
}

-- `KeyringSecretStore::new(VAULT_SERVICE)`
pub record Vault (World : Type 0) : Type 0 where
  pub set : (entry secret : Text) → World → Result (Unit {0}) Text × World
  pub get : (entry : Text) → World → Result (Option Text) Text

pub record SetAiProviderRequest : Type 0 where
  pub id : Text
  pub provider_type : Text
  pub is_local : Bool
  pub model_name : Option Text
  pub endpoint : Option Text
  pub api_key : Option Text

abbrev pub entry_name : Text → Text
entry_name id = codes "provider-key-" ++ id

-- What is stored of a request: in place of the secret, the name of its entry in the vault.
unfoldable pub config_of : SetAiProviderRequest → Option Text → LlmProviderConfig
config_of query vault_key_ref = record {
  id = query.id;
  provider_type = query.provider_type;
  is_local = query.is_local;
  model_name = query.model_name;
  endpoint = query.endpoint;
  vault_key_ref = vault_key_ref;
  active = false;
}

module _ {World : Type 0} (vault : Vault World) where
  -- `secret_store.set(...)?`
  keep_secret : Text → Result (Unit {0}) Text × World → Result (Option Text) CommandError × World
  keep_secret entry (ok _, world) = (ok (some entry), world)
  keep_secret entry (err e, world) = (err (vault_error e), world)

  unfoldable pub store_secret :
      Text → Option Text → World → Result (Option Text) CommandError × World
  unfolding keep_secret
  store_secret id none world = (ok none, world)
  store_secret id (some api_key) world =
      keep_secret (entry_name id) (vault.set (entry_name id) api_key world)

module _ (j : Json) (db : Engine j.Value) {F World : Type 0} (vault : Vault World) (now : ℕ) where
  unfoldable pub list_llm_providers_command :
      AppState F → Result (List LlmProviderConfig) CommandError × AppState F
  unfolding list_llm_providers read_store
  list_llm_providers_command state =
      read_store (list_llm_providers state.store) state λ providers. (ok providers, state)

  unfoldable pub register_provider :
      SetAiProviderRequest
      → AppState F
      → Result (Option Text) CommandError
      → Result Bool CommandError × AppState F
  unfolding upsert_llm_provider set_active_llm_provider call_store log_audit config_of
  register_provider query state (err e) = (err e, state)
  register_provider query state (ok vault_key_ref) =
      call_store (upsert_llm_provider (config_of query vault_key_ref) state.store) state λ _ stored.
        call_store (set_active_llm_provider query.id stored.store) stored λ _ after. (
          ok true,
          log_user j db now (codes "provider_changed")
              (j.insert (codes "provider_id") (j.string query.id) j.empty) after,
        )

  unfoldable pub set_ai_provider :
      SetAiProviderRequest → AppState F → World → (Result Bool CommandError × AppState F) × World
  unfolding is_provider_allowed store_secret register_provider
  set_ai_provider query state world =
      if not (is_provider_allowed state.enterprise_policy query.id)
      then ((err (provider_not_approved query.id), state), world)
      else let (vault_key_ref, after) = store_secret vault query.id query.api_key world in
        (register_provider query state vault_key_ref, after)
