-- ===== src/Store/Providers.antt =====
-- crates/event-store/src/store.rs: the table of providers, whose key is the id.
pub mod Active
use hidden_steps.Prelude.{
  Bool, List, Option, Result, Text, [], any, err, find, if◌then◌else◌, map, ok, text_eq, ◌∷◌,
}
use hidden_steps.Domain.Pattern.{LlmProviderConfig, active}
use hidden_steps.Store.{EventStore, EventStoreError, not_registered}

-- `INSERT ... ON CONFLICT(id) DO UPDATE`
unfoldable pub upsert_row : LlmProviderConfig → List LlmProviderConfig → List LlmProviderConfig
upsert_row provider [] = provider ∷ []
upsert_row provider (p ∷ rows) =
    let rest = upsert_row provider rows in
    if text_eq p.id provider.id then provider ∷ rows else p ∷ rest

-- `SELECT EXISTS(...)`
unfoldable pub registered : Text → List LlmProviderConfig → Bool
registered provider_id rows = any (λ p. text_eq p.id provider_id) rows

-- `UPDATE llm_providers SET active = (id = ?1)`
unfoldable pub activate : Text → LlmProviderConfig → LlmProviderConfig
activate provider_id p = record p { active = text_eq p.id provider_id }

module _ {F : Type 0} where
  unfoldable pub upsert_llm_provider :
      LlmProviderConfig → EventStore F → Result (Unit {0}) EventStoreError × EventStore F
  unfolding upsert_row
  upsert_llm_provider provider store =
      (ok tt, record store { llm_providers = upsert_row provider store.llm_providers })

  unfoldable pub list_llm_providers : EventStore F → Result (List LlmProviderConfig) EventStoreError
  list_llm_providers store = ok store.llm_providers

  unfoldable pub set_active_llm_provider :
      Text → EventStore F → Result (Unit {0}) EventStoreError × EventStore F
  unfolding registered activate
  set_active_llm_provider provider_id store =
      if registered provider_id store.llm_providers
      then (ok tt, record store { llm_providers = map (activate provider_id) store.llm_providers })
      else (err (not_registered provider_id), store)

  -- `query_row` takes the first row.
  unfoldable pub get_active_llm_provider :
      EventStore F → Result (Option LlmProviderConfig) EventStoreError
  get_active_llm_provider store = ok (find (λ p. p.active) store.llm_providers)
