-- ===== src/App.antt =====
-- apps/desktop/src-tauri/src/state.rs, commands.rs and main.rs: the state that the commands of the
-- application share, and how a command calls the store. Messages of errors are data.
pub mod Privacy
pub mod Providers
pub mod Data
pub mod Settings
pub mod Launch
pub mod Observation
pub mod Sweep
pub mod Connectivity
pub mod Commands
mod Tests
use hidden_steps.Prelude.{Result, Text, err, ok, ℕ}
use hidden_steps.Domain.Pattern.{AuditActor, AuditEntry, new_entry}
use hidden_steps.Domain.Privacy.{PrivacyLevelError}
use hidden_steps.Gate.{DispatchGate}
use hidden_steps.Json.{Json}
use hidden_steps.Policy.{EnterprisePolicy}
use hidden_steps.Store.{Engine, EventStore, EventStoreError}
use hidden_steps.Store.Events.{append_audit_entry}

pub record AppState (F : Type 0) : Type 0 where
  pub store : EventStore F
  pub gate : DispatchGate
  pub enterprise_policy : EnterprisePolicy

-- The texts that commands return as their errors.
pub data CommandError : Type 0 where
  store_error : EventStoreError → CommandError
  level_error : PrivacyLevelError → CommandError
  provider_not_approved setting_not_accessible : Text → CommandError
  unknown_status : Text → CommandError
  acknowledgment_required : (level : ℕ) → CommandError
  recommendation_not_found : (id : ℕ) → CommandError
  vault_error : Text → CommandError

module _ {F : Type 0} where
  -- `state.store.call(...).map_err(to_err)?`, with the rest of the command.
  unfoldable pub call_store :
      {A B : Type 0}
      → Result A EventStoreError × EventStore F
      → AppState F
      → (A → AppState F → Result B CommandError × AppState F)
      → Result B CommandError × AppState F
  call_store (ok a, store) state rest = rest a (record state { store = store })
  call_store (err e, store) state rest = (err (store_error e), record state { store = store })

  -- The same for a call that only reads.
  unfoldable pub read_store :
      {A B : Type 0}
      → Result A EventStoreError
      → AppState F
      → (A → Result B CommandError × AppState F)
      → Result B CommandError × AppState F
  read_store (ok a) state rest = rest a
  read_store (err e) state rest = (err (store_error e), state)

module _ (j : Json) (db : Engine j.Value) {F : Type 0} where
  -- A failure to write the entry is not one of the command.
  unfoldable pub log_audit : AuditEntry j.Value → AppState F → AppState F
  unfolding append_audit_entry
  log_audit entry state = record state { store = (append_audit_entry db entry state.store).1 }

  -- `log_audit(&state.store, AuditEntry::new(AuditActor::User, action, details))`
  abbrev pub log_user : ℕ → Text → j.Map → AppState F → AppState F
  log_user now action details state =
      log_audit (new_entry now AuditActor.user action (j.object details)) state
