-- ===== src/App/Providers/Secret.antt =====
-- apps/desktop/src-tauri/src/commands.rs: a provider's key goes to the vault alone.
use hidden_steps.Prelude.{Bool-cases, Text, inl, inr, ok, refl, some, ℕ, ◌≡◌}
use hidden_steps.Json.{Json}
use hidden_steps.Policy.{is_provider_allowed}
use hidden_steps.Store.{Engine}
use hidden_steps.App.{AppState}
use hidden_steps.App.Providers.{
  SetAiProviderRequest, Vault, config_of, entry_name, keep_secret, register_provider,
  set_ai_provider, store_secret,
}

-- The same request with another key.
abbrev pub with_key : Text → SetAiProviderRequest → SetAiProviderRequest
with_key api_key query = record query { api_key = some api_key }

-- The state and the answer say nothing of the key: when the vault takes either of two keys, in
-- whatever worlds, choosing a provider with the one or the other returns the same and leaves the
-- same state.
pub set_ai_provider-with_key :
    (j : Json) (db : Engine j.Value) {F World : Type 0} (vault : Vault World) (now : ℕ)
    (query : SetAiProviderRequest) (key other : Text) (state : AppState F)
    (world elsewhere after there : World)
    → vault.set (entry_name query.id) key world ≡ (ok tt, after)
    → vault.set (entry_name query.id) other elsewhere ≡ (ok tt, there)
    → (set_ai_provider j db vault now (with_key key query) state world).0
      ≡ (set_ai_provider j db vault now (with_key other query) state elsewhere).0
unfolding set_ai_provider store_secret keep_secret register_provider config_of
set_ai_provider-with_key j db vault now query key other state world elsewhere after there h k =
    elim (Bool-cases (is_provider_allowed state.enterprise_policy query.id)) [
      | inr refused ↦ rw refused refl
      | inl allowed ↦ rw allowed (rw h (rw k refl))
    ]
