-- ===== src/Store/Providers/Active.antt =====
-- crates/event-store/src/store.rs: at most one provider is active.
use hidden_steps.Prelude.{
  All, Bool-cases, List, Text, [], any, err, false, find, inl, inr, map, ok, refl, some, text_eq,
  text_eq_sound, true, ◌∷◌, ◌≡◌, ◌⊎◌,
}
use hidden_steps.Domain.Pattern.{LlmProviderConfig}
use hidden_steps.Store.{EventStore, not_registered}
use hidden_steps.Store.Providers.{
  activate, get_active_llm_provider, registered, set_active_llm_provider,
}

-- Every provider is active exactly when it has the id.
abbrev pub OnlyActive : Text → List LlmProviderConfig → Type 0
OnlyActive provider_id rows = All (λ p. p.active ≡ text_eq p.id provider_id) rows

activate-OnlyActive :
    (provider_id : Text) (rows : List LlmProviderConfig)
    → OnlyActive provider_id (map (activate provider_id) rows)
unfolding activate
activate-OnlyActive provider_id [] = tt
activate-OnlyActive provider_id (p ∷ rows) = (refl, activate-OnlyActive provider_id rows)

-- The row with the id is found by its mark.
find_active :
    (provider_id : Text) (rows : List LlmProviderConfig)
    → any (λ p. text_eq p.id provider_id) rows ≡ true
    → (p : LlmProviderConfig) × (find (λ q. q.active) (map (activate provider_id) rows) ≡ some p)
      × (p.id ≡ provider_id)
unfolding activate
find_active provider_id [] h = cc
find_active provider_id (p ∷ rows) h = elim (Bool-cases (text_eq p.id provider_id)) [
  | inl e ↦ (activate provider_id p, rw e refl, text_eq_sound p.id provider_id e)
  | inr e ↦
      let (q, found, known) = find_active provider_id rows (rw e at h) in (q, rw e found, known)
]

-- Making a provider active either fails, because no provider has that id, and changes nothing; or
-- succeeds, and then exactly the providers with that id are active, and reading the active provider
-- returns one with that id.
pub set_active_llm_provider-get :
    {F : Type 0} (provider_id : Text) (store : EventStore F)
    → ((registered provider_id store.llm_providers ≡ false)
        × (set_active_llm_provider provider_id store ≡ (err (not_registered provider_id), store)))
      ⊎ ((after : EventStore F) × (set_active_llm_provider provider_id store ≡ (ok tt, after))
          × OnlyActive provider_id after.llm_providers
          × ((p : LlmProviderConfig) × (get_active_llm_provider after ≡ ok (some p))
              × (p.id ≡ provider_id)))
unfolding set_active_llm_provider registered get_active_llm_provider
set_active_llm_provider-get provider_id store =
    elim (Bool-cases (registered provider_id store.llm_providers)) [
      | inr no_row ↦ inl (no_row, rw no_row refl)
      | inl row ↦
          let (p, found, known) = find_active provider_id store.llm_providers row in
          inr (
            record store { llm_providers = map (activate provider_id) store.llm_providers },
            rw row refl,
            activate-OnlyActive provider_id store.llm_providers,
            (p, rw found refl, known),
          )
    ]
