-- ===== src/App/Launch.antt =====
-- apps/desktop/src-tauri/src/main.rs: what a launch makes of the store and of the policy file.
pub mod Laws
use hidden_steps.Prelude.{
  Option, Result, Text, and_then, codes, err, if◌then◌else◌, length, none, ok, ok_of, some,
  unwrap_or, ℕ, ◌==◌,
}
use hidden_steps.Gate.{DispatchGate, grant_general_cloud_consent, new_gate}
use hidden_steps.Json.{Json}
use hidden_steps.Policy.{EnterprisePolicy, PolicyError, parse}
use hidden_steps.Store.{Engine, EventStore}
use hidden_steps.Store.State.{get_enterprise_policy, get_setting, migrate, set_enterprise_policy}
use hidden_steps.App.{AppState}
use hidden_steps.App.Providers.{Vault}
use hidden_steps.App.Settings.{cloud_consent_setting_key, is_true}

-- `EnterprisePolicy::default()`
abbrev pub no_policy : EnterprisePolicy
no_policy = record { policy_source = none; privacy_level_floor = none; provider_allowlist = none }

-- `generate_master_key` gives the new key. An entry of the vault that is there but is not a key of
-- 32 bytes is replaced; so is one that cannot be read.
module _ {World : Type 0} (vault : Vault World) where
  chosen_key : Text → Result (Option Text) Text → World → Text × World
  chosen_key new_key (ok (some existing)) world =
      if length existing == 32
      then (existing, world)
      else (new_key, (vault.set (codes "db-master-key") new_key world).1)
  chosen_key new_key (ok none) world =
      (new_key, (vault.set (codes "db-master-key") new_key world).1)
  chosen_key new_key (err e) world = (new_key, (vault.set (codes "db-master-key") new_key world).1)

  unfoldable pub resolve_master_key : Text → World → Text × World
  unfolding chosen_key
  resolve_master_key new_key world =
      chosen_key new_key (vault.get (codes "db-master-key") world) world

module _ (j : Json) (db : Engine j.Value) {F : Type 0} where
  -- `ok().flatten().unwrap_or_default()`
  unfoldable pub persisted_policy : EventStore F → EnterprisePolicy
  unfolding get_enterprise_policy
  persisted_policy store =
      unwrap_or (and_then (ok_of (get_enterprise_policy db store)) λ p. p) no_policy

  -- `if let Ok(Some(Value::Bool(true))) = store.get_setting(...)`
  unfoldable pub launched_gate : EventStore F → DispatchGate
  unfolding get_setting is_true
  launched_gate store = elim (get_setting db cloud_consent_setting_key store) [
    | err _ ↦ new_gate
    | ok value ↦ if is_true j value then grant_general_cloud_consent new_gate else new_gate
  ]

  module _ {E : Type 0} (from_str : Text → Result EnterprisePolicy E) (now : ℕ) where
    unfoldable pub read_policy :
        EventStore F → Result EnterprisePolicy (PolicyError E) → EnterprisePolicy × EventStore F
    unfolding set_enterprise_policy persisted_policy
    read_policy store (ok policy) = (policy, (set_enterprise_policy db policy now store).1)
    read_policy store (err _) = (persisted_policy store, store)

    -- The first argument is what the policy file holds, if it can be read.
    unfoldable pub resolve_enterprise_policy :
        Option Text → EventStore F → EnterprisePolicy × EventStore F
    unfolding persisted_policy parse read_policy
    resolve_enterprise_policy none store = (persisted_policy store, store)
    resolve_enterprise_policy (some contents) store = read_policy store (parse from_str contents)

    -- The state that `main` manages, for the store that it opened.
    unfoldable pub launch : Option Text → EventStore F → AppState F
    unfolding resolve_enterprise_policy launched_gate migrate
    launch policy_file opened =
        let store = migrate db now opened in
        let (policy, after) = resolve_enterprise_policy policy_file store in
        record { store = after; gate = launched_gate store; enterprise_policy = policy }
