-- ===== src/Provider.antt =====
-- crates/llm-provider/src/provider.rs: the trait that every provider implements. `World` is what a
-- call can read and change outside the program, so a provider that was not called has left it alone.
use hidden_steps.Prelude.{Bool, List, Option, Result, Text, ℕ}

pub data ProviderError : Type 0 where
  request provider_response unexpected_response : Text → ProviderError
  embeddings_unsupported : ProviderError

pub record CompletionRequest : Type 0 where
  pub system : Option Text
  pub prompt : Text
  pub max_tokens : Option ℕ
  pub think : Option Bool

pub record CompletionResponse : Type 0 where
  pub text : Text

pub record LlmProvider (World F : Type 0) : Type 0 where
  pub id : Text
  pub is_local : Bool
  pub complete : CompletionRequest → World → Result CompletionResponse ProviderError × World
  pub embed : Text → World → Result (List F) ProviderError × World
