-- ===== src/Store/State.antt =====
-- crates/event-store/src/store.rs: the tables of one row, the settings and the migration.
pub mod Laws
use mathlib.Core.Option
use hidden_steps.Prelude.{
  List, Option, Result, Text, [], err, if◌then◌else◌, max, none, not, ok, some, text_eq, ℕ, ◌%◌,
  ◌==◌, ◌>>=◌, ◌^◌, ◌∷◌,
}
use hidden_steps.Domain.Privacy.{PrivacyState, as_u8, from_u8}
use hidden_steps.Policy.{EnterprisePolicy}
use hidden_steps.Store.{
  Engine, EventStore, EventStoreError, PolicyRow, PrivacyRow, invalid_level, map_err, no_rows,
  of_bool,
}
use hidden_steps.Store.Rows.{from_rfc3339, printed, read_back}

abbrev pub current_schema_version : ℕ
current_schema_version = 1

-- `SELECT MAX(version)`
unfoldable pub max_version : List (ℕ × Text) → Option ℕ
max_version [] = none
max_version ((v, _) ∷ rows) = elim (max_version rows) [ none ↦ some v | some w ↦ some (max v w) ]

-- `WHERE key = ?1`
unfoldable pub setting_text : List (Text × Text) → Text → Option Text
setting_text [] key = none
setting_text ((k, v) ∷ rows) key =
    let rest = setting_text rows key in if text_eq k key then some v else rest

-- `INSERT ... ON CONFLICT(key) DO UPDATE`
unfoldable pub upsert_setting : Text → Text → List (Text × Text) → List (Text × Text)
upsert_setting key value [] = (key, value) ∷ []
upsert_setting key value ((k, v) ∷ rows) =
    let rest = upsert_setting key value rows in
    if text_eq k key then (k, value) ∷ rows else (k, v) ∷ rest

module _ {Value : Type 0} (db : Engine Value) where
  privacy_of : Option PrivacyRow → Result PrivacyState EventStoreError
  unfolding from_rfc3339 map_err
  privacy_of none = err no_rows
  privacy_of (some row) = do
    level ← map_err invalid_level (from_u8 (row.current_level % 2 ^ 8))
    updated_at ← from_rfc3339 db row.updated_at
    ok (record {
      current_level = level;
      consented_manifest_version = row.consented_manifest_version;
      observation_active = not (row.observation_active == 0);
      updated_at = updated_at;
    })

  unfoldable pub privacy_row : PrivacyState → PrivacyRow
  privacy_row state = record {
    current_level = as_u8 state.current_level;
    consented_manifest_version = state.consented_manifest_version;
    observation_active = of_bool state.observation_active;
    updated_at = db.to_rfc3339 state.updated_at;
  }

  allowlist_of : Option Text → Result (Option (List Text)) EventStoreError
  unfolding map_err
  allowlist_of none = ok none
  allowlist_of (some json) = do allowed ← read_back db.texts_json json; ok (some allowed)

  policy_of : Option PolicyRow → Result (Option EnterprisePolicy) EventStoreError
  unfolding allowlist_of
  policy_of none = ok none
  policy_of (some row) = do
    provider_allowlist ← allowlist_of row.provider_allowlist_json
    ok (
        some (record {
          policy_source = row.policy_source;
          privacy_level_floor = Option.map (λ f. f % 2 ^ 8) row.privacy_level_floor;
          provider_allowlist = provider_allowlist;
        }))

  allowlist_json : Option (List Text) → Result (Option Text) EventStoreError
  unfolding map_err
  allowlist_json none = ok none
  allowlist_json (some allowed) = do json ← printed db.texts_json allowed; ok (some json)

  parsed_setting : Option Text → Result (Option Value) EventStoreError
  unfolding map_err
  parsed_setting none = ok none
  parsed_setting (some json) = do value ← read_back db.value_json json; ok (some value)

module _ {Value : Type 0} (db : Engine Value) {F : Type 0} where
  -- `migrate`, behind the creation of the tables.
  unfoldable pub migrate : ℕ → EventStore F → EventStore F
  unfolding max_version
  migrate now store = elim (max_version store.schema_version) [
    | some _ ↦ store
    | none ↦ record store {
      schema_version = (current_schema_version, db.to_rfc3339 now) ∷ store.schema_version;
      privacy_state = some (record {
        current_level = 0;
        consented_manifest_version = 0;
        observation_active = 0;
        updated_at = db.to_rfc3339 now;
      });
    }
  ]

  unfoldable pub get_privacy_state : EventStore F → Result PrivacyState EventStoreError
  unfolding privacy_of
  get_privacy_state store = privacy_of db store.privacy_state

  -- `UPDATE privacy_state SET ... WHERE id = 1`: without the row nothing is updated.
  unfoldable pub set_privacy_state :
      PrivacyState → EventStore F → Result (Unit {0}) EventStoreError × EventStore F
  unfolding privacy_row
  set_privacy_state state store = (
    ok tt,
    record store { privacy_state = Option.map (λ _. privacy_row db state) store.privacy_state },
  )

  unfoldable pub get_enterprise_policy :
      EventStore F → Result (Option EnterprisePolicy) EventStoreError
  unfolding policy_of
  get_enterprise_policy store = policy_of db store.enterprise_policy

  write_policy :
      EnterprisePolicy
      → ℕ
      → EventStore F
      → Result (Option Text) EventStoreError
      → Result (Unit {0}) EventStoreError × EventStore F
  write_policy policy now store (err e) = (err e, store)
  write_policy policy now store (ok json) = (
    ok tt,
    record store {
      enterprise_policy = some (record {
        policy_source = policy.policy_source;
        privacy_level_floor = policy.privacy_level_floor;
        provider_allowlist_json = json;
        applied_at = db.to_rfc3339 now;
      });
    },
  )

  unfoldable pub set_enterprise_policy :
      EnterprisePolicy → ℕ → EventStore F → Result (Unit {0}) EventStoreError × EventStore F
  unfolding allowlist_json write_policy
  set_enterprise_policy policy now store =
      write_policy policy now store (allowlist_json db policy.provider_allowlist)

  unfoldable pub get_setting : Text → EventStore F → Result (Option Value) EventStoreError
  unfolding setting_text parsed_setting
  get_setting key store = parsed_setting db (setting_text store.settings key)

  write_setting :
      Text
      → EventStore F
      → Result Text EventStoreError
      → Result (Unit {0}) EventStoreError × EventStore F
  unfolding upsert_setting
  write_setting key store (err e) = (err e, store)
  write_setting key store (ok json) =
      (ok tt, record store { settings = upsert_setting key json store.settings })

  unfoldable pub set_setting :
      Text → Value → EventStore F → Result (Unit {0}) EventStoreError × EventStore F
  unfolding write_setting map_err
  set_setting key value store = write_setting key store (printed db.value_json value)
