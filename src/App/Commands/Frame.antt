-- ===== src/App/Commands/Frame.antt =====
-- apps/desktop/src-tauri/src/commands.rs: what commands leave as it is.
use hidden_steps.Prelude.{
  Bool-cases, List, Option, Result, Result-cases, Text, [], err, inl, inr, ok, refl, ℕ, ◌∷◌, ◌≡◌,
}
use hidden_steps.Float.{Float}
use hidden_steps.Json.{Json}
use hidden_steps.Policy.{is_provider_allowed}
use hidden_steps.Store.{Engine}
use hidden_steps.Store.Erase.{export_data}
use hidden_steps.Store.Events.{delete_events, delete_events_where}
use hidden_steps.Store.Patterns.{set_recommendation_status}
use hidden_steps.Store.Providers.{
  registered, set_active_llm_provider, upsert_llm_provider, upsert_row,
}
use hidden_steps.App.{AppState, CommandError, call_store, log_audit, read_store}
use hidden_steps.App.Data.{
  delete_events_command, export_data_command, parse_recommendation_status,
  set_recommendation_status_command,
}
use hidden_steps.App.Providers.{
  SetAiProviderRequest, Vault, config_of, register_provider, set_ai_provider, store_secret,
}

-- The privacy state, the settings and the gate are those before.
pub record SameControls {F : Type 0} (before after : AppState F) : Type 0 where
  pub privacy : after.store.privacy_state ≡ before.store.privacy_state
  pub settings : after.store.settings ≡ before.store.settings
  pub gate : after.gate ≡ before.gate

abbrev pub same_controls : {F : Type 0} {s : AppState F} → SameControls s s
same_controls = record { privacy = refl; settings = refl; gate = refl }

module _ (j : Json) (db : Engine j.Value) (float : Float) (now : ℕ) where
  pub delete_events-SameControls :
      (ids : List ℕ) (state : AppState float.F)
      → SameControls state (delete_events_command j db float now ids state).1
  unfolding delete_events_command delete_events delete_events_where call_store log_audit
  delete_events-SameControls [] state = record { privacy = refl; settings = refl; gate = refl }
  delete_events-SameControls (id ∷ ids) state = record {
    privacy = refl;
    settings = refl;
    gate = refl;
  }

  pub export_data-SameControls :
      (state : AppState float.F) → SameControls state (export_data_command j db float now state).1
  unfolding export_data_command read_store log_audit
  export_data-SameControls state = elim (Result-cases (export_data db float state.store)) [
    | inl (a, e) ↦ rw e (record { privacy = refl; settings = refl; gate = refl })
    | inr (f, e) ↦ rw e same_controls
  ]

  pub set_recommendation_status-SameControls :
      (id : ℕ) (status : Text) (reason : Option Text) (state : AppState float.F)
      → SameControls state (set_recommendation_status_command j db float id status reason state).1
  unfolding set_recommendation_status_command set_recommendation_status call_store
  set_recommendation_status-SameControls id status reason state =
      elim (Result-cases (parse_recommendation_status status)) [
        | inl (a, e) ↦
            rw (e, set_recommendation_status_command)
              (record { privacy = refl; settings = refl; gate = refl })
        | inr (f, e) ↦ rw (e, set_recommendation_status_command) same_controls
      ]

  module _ {World : Type 0} (vault : Vault World) where
    register-SameControls :
        (query : SetAiProviderRequest) (state : AppState float.F)
        (secret : Result (Option Text) CommandError)
        → SameControls state (register_provider j db vault now query state secret).1
    unfolding register_provider upsert_llm_provider set_active_llm_provider call_store log_audit
    register-SameControls query state (err e) = same_controls
    register-SameControls query state (ok r) =
        elim (Bool-cases
          (registered query.id (upsert_row (config_of query r) state.store.llm_providers))) [
            | inl e ↦ rw e (record { privacy = refl; settings = refl; gate = refl })
            | inr e ↦ rw e (record { privacy = refl; settings = refl; gate = refl })
          ]

    pub set_ai_provider-SameControls :
        (query : SetAiProviderRequest) (state : AppState float.F) (world : World)
        → SameControls state (set_ai_provider j db vault now query state world).0.1
    unfolding set_ai_provider
    set_ai_provider-SameControls query state world =
        elim (Bool-cases (is_provider_allowed state.enterprise_policy query.id)) [
          | inr e ↦ rw e same_controls
          | inl e ↦ rw e (
              register-SameControls query state (store_secret vault query.id query.api_key world).0)
        ]
