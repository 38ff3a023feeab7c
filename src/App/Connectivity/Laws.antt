-- ===== src/App/Connectivity/Laws.antt =====
-- apps/desktop/src-tauri/src/commands.rs: what a test of a provider says of the provider that is
-- then chosen.
use hidden_steps.Prelude.{
  Bool, Bool-cases, Option, Option-cases, Result, Text, [], codes, err, false, inl, inr, none, ok,
  refl, some, text_eq, true, unwrap_or, ◌≡◌, ◌⊎◌,
}
use hidden_steps.Provider.{CompletionResponse, LlmProvider, ProviderError}
use hidden_steps.App.Providers.{SetAiProviderRequest, Vault, config_of}
use hidden_steps.App.Sweep.{Clients, api_key_of, build_provider}
use hidden_steps.App.Connectivity.{
  TestProviderConnectivityRequest, named_error, no_model_selected, probe, probed, response_of,
  test_provider_connectivity,
}

-- The test that the interface makes before it sends a choice.
abbrev pub test_of : SetAiProviderRequest → TestProviderConnectivityRequest
test_of query = record {
  provider_type = query.provider_type;
  endpoint = query.endpoint;
  api_key = query.api_key;
  model = query.model_name;
}

abbrev pub answers : {A E : Type 0} → Result A E → Bool
answers (ok _) = true
answers (err _) = false

module _ {World F : Type 0} (clients : Clients World F) (vault : Vault World)
    (message : ProviderError → Text) where
  response_of_lem :
      (answer : Result CompletionResponse ProviderError × World)
      → ((response_of clients message answer).1 ≡ answer.1)
        × ((response_of clients message answer).0.is_ok ≡ answers answer.0)
  response_of_lem (ok r, world) = (refl, refl)
  response_of_lem (err e, world) = (refl, refl)

  response_of-named_error :
      (name : Text) (answer : Result CompletionResponse ProviderError × World)
      → ((response_of clients message (named_error clients message name answer)).1 ≡ answer.1)
        × ((response_of clients message (named_error clients message name answer)).0.is_ok
            ≡ answers answer.0)
  response_of-named_error name (ok r, world) = (refl, refl)
  response_of-named_error name (err e, world) = (refl, refl)

  -- A test and the provider that is later built from what is stored of the same choice, when the
  -- vault gives the key that was tested: either no model is chosen, the test fails without a call
  -- and no provider is built; or the provider that is built is the one that the test asked, and the
  -- test succeeds exactly when that provider answered.
  pub test_provider_connectivity-build_provider :
      (query : SetAiProviderRequest) (vault_key_ref : Option Text) (world : World)
      → api_key_of clients vault vault_key_ref world ≡ unwrap_or query.api_key []
      → ((build_provider clients vault (config_of query vault_key_ref) world ≡ none)
          × (test_provider_connectivity clients message (test_of query) world
              ≡ (record { is_ok = false; error = some no_model_selected }, world)))
        ⊎ ((provider : LlmProvider World F) × (build_provider clients vault
                (config_of query vault_key_ref)
                world
              ≡ some provider)
            × ((test_provider_connectivity clients message (test_of query) world).1
                ≡ (provider.complete probe world).1)
            × ((test_provider_connectivity clients message (test_of query) world).0.is_ok
                ≡ answers (provider.complete probe world).0))
  unfolding build_provider test_provider_connectivity config_of probed
  test_provider_connectivity-build_provider query vault_key_ref world h =
      elim (Option-cases query.model_name) [
        | inl none_named ↦ inl (rw none_named refl, rw none_named refl)
        | inr (model, named) ↦ elim (Bool-cases (text_eq (clients.trim model) [])) [
          | inl blank ↦ inl (rw named (rw blank refl), rw named (rw blank refl))
          | inr word ↦ rw named (
              rw word (
                inr (elim (Bool-cases (text_eq query.provider_type (codes "ollama"))) [
                  | inl e ↦ (
                    clients.ollama (unwrap_or query.endpoint (codes "http://localhost:11434"))
                        model,
                    rw e refl,
                    rw e (response_of_lem _).0,
                    rw e (response_of_lem _).1,
                  )
                  | inr e ↦ elim (Bool-cases (text_eq query.provider_type (codes "anthropic"))) [
                    | inl k ↦ (
                      clients.anthropic
                          (unwrap_or query.endpoint (codes "https://api.anthropic.com"))
                          (unwrap_or query.api_key []) model,
                      rw e (rw k (rw h refl)),
                      rw e (rw k (response_of_lem _).0),
                      rw e (rw k (response_of_lem _).1),
                    )
                    | inr k ↦ (
                      clients.openai_compatible
                          (unwrap_or query.endpoint (codes "https://api.openai.com"))
                          (unwrap_or query.api_key []) model,
                      rw e (rw k (rw h refl)),
                      rw e (rw k (response_of-named_error query.provider_type _).0),
                      rw e (rw k (response_of-named_error query.provider_type _).1),
                    )
                  ]
                ])))
        ]
      ]
