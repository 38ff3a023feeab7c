-- ===== src/App/Connectivity.antt =====
-- apps/desktop/src-tauri/src/commands.rs: `test_provider_connectivity`, which asks a provider for one
-- word before it is chosen.
pub mod Laws
use hidden_steps.Prelude.{
  Bool, Option, Result, Text, [], codes, err, false, if◌then◌else◌, none, ok, some, text_eq, true,
  unwrap_or, ◌++◌, ◌∷◌,
}
use hidden_steps.Provider.{
  CompletionRequest, CompletionResponse, LlmProvider, ProviderError, request,
}
use hidden_steps.App.Sweep.{Clients}

pub record TestProviderConnectivityRequest : Type 0 where
  pub provider_type : Text
  pub endpoint : Option Text
  pub api_key : Option Text
  pub model : Option Text

pub record TestProviderConnectivityResponse : Type 0 where
  pub is_ok : Bool
  pub error : Option Text

abbrev pub probe : CompletionRequest
probe = record {
  system = none;
  prompt = codes "Reply with the single word: ok";
  max_tokens = some 16;
  think = some false;
}

-- The dash is one character of three bytes.
abbrev pub no_model_selected : Text
no_model_selected =
    codes "No model selected "
    ++ (226 ∷ 128 ∷ 148 ∷ codes " choose one before testing the connection.")

abbrev asked :
    {World F : Type 0}
    → LlmProvider World F
    → World
    → Result CompletionResponse ProviderError × World
asked provider world = provider.complete probe world

-- `message` is `ProviderError::to_string`.
module _ {World F : Type 0} (clients : Clients World F) (message : ProviderError → Text) where
  -- The error of the client that several types share says which type was tried.
  abbrev pub named_error :
      Text
      → Result CompletionResponse ProviderError × World
      → Result CompletionResponse ProviderError × World
  named_error provider_type (result, world) = (
    elim result [
      | ok r ↦ ok r
      | err e ↦ err (request (codes "[" ++ (provider_type ++ (codes "] " ++ message e))))
    ],
    world,
  )

  unfoldable pub probed :
      TestProviderConnectivityRequest
      → Text
      → World
      → Result CompletionResponse ProviderError × World
  probed query model world =
      if text_eq query.provider_type (codes "ollama")
      then asked (clients.ollama (unwrap_or query.endpoint (codes "http://localhost:11434")) model)
          world
      else if text_eq query.provider_type (codes "anthropic")
      then asked
          (clients.anthropic (unwrap_or query.endpoint (codes "https://api.anthropic.com"))
            (unwrap_or query.api_key []) model)
          world
      else named_error query.provider_type (
          asked
            (clients.openai_compatible (unwrap_or query.endpoint (codes "https://api.openai.com"))
              (unwrap_or query.api_key []) model)
            world)

  abbrev pub response_of :
      Result CompletionResponse ProviderError × World → TestProviderConnectivityResponse × World
  response_of (ok _, world) = (record { is_ok = true; error = none }, world)
  response_of (err e, world) = (record { is_ok = false; error = some (message e) }, world)

  with_model :
      TestProviderConnectivityRequest
      → Option Text
      → World
      → TestProviderConnectivityResponse × World
  unfolding probed
  with_model query none world = (record { is_ok = false; error = some no_model_selected }, world)
  with_model query (some model) world = response_of (probed query model world)

  -- A model of blanks is none.
  unfoldable pub test_provider_connectivity :
      TestProviderConnectivityRequest → World → TestProviderConnectivityResponse × World
  unfolding with_model
  test_provider_connectivity query world =
      with_model query
        (elim query.model [
          | none ↦ none
          | some m ↦ if text_eq (clients.trim m) [] then none else some m
        ])
        world
