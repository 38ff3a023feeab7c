-- ===== src/Store/State/Laws.antt =====
-- crates/event-store/src/store.rs: what is set is what is got.
use hidden_steps.Prelude.{
  Bool-cases, List, Option, Option-cases, Result, Result-cases, Text, [], ap, arith, err, false,
  if◌then◌else◌, inl, inr, none, ok, refl, some, text_eq, text_eq_sound, true, ℕ, ◌>>=◌, ◌∷◌, ◌≡◌,
  ◌⊎◌,
}
use hidden_steps.Domain.Privacy.{PrivacyState}
use hidden_steps.Store.{
  Engine, EventStore, EventStoreError, PrivacyRow, map_err, no_rows, serialization,
}
use hidden_steps.Store.Rows.Laws.{bool_back, from-to_rfc3339, level_back}
use hidden_steps.Store.State.{
  allowlist_json, get_privacy_state, get_setting, parsed_setting, privacy_of, set_enterprise_policy,
  set_privacy_state, set_setting, setting_text, upsert_setting, write_policy,
}
use hidden_steps.Policy.{EnterprisePolicy}

setting_text-upsert_setting :
    (key value : Text) (rows : List (Text × Text)) (j : Text)
    → setting_text (upsert_setting key value rows) j
      ≡ (if text_eq key j then some value else setting_text rows j)
unfolding setting_text upsert_setting
setting_text-upsert_setting key value [] j = refl
setting_text-upsert_setting key value ((k, v) ∷ rows) j = elim (Bool-cases (text_eq k key)) [
  | inl e ↦ rw e (rw (text_eq_sound k key e) (ground arith))
  | inr e ↦ rw e (
      rw (setting_text-upsert_setting key value rows j) (elim (Bool-cases (text_eq k j)) [
        | inr f ↦ rw f refl
        | inl f ↦ rw f (rw (other k key j e f) refl)
      ]))
]
  where
    other : (k key j : Text) → text_eq k key ≡ false → text_eq k j ≡ true → text_eq key j ≡ false
    other k key j e f = elim (Bool-cases (text_eq key j)) [
      | inr g ↦ g
      | inl g ↦ absurd (cc (e, f, text_eq_sound key j g))
    ]

-- What reading a setting returns, from what its text is read as.
abbrev pub found : {Value : Type 0} → Result Value Text → Result (Option Value) EventStoreError
found (ok value) = ok (some value)
found (err message) = err (serialization message)

read_as :
    {Value : Type 0} (read : Result Value Text)
    → (do value ← map_err serialization read; ok (some value)) ≡ found read
unfolding map_err
read_as (ok value) = refl
read_as (err message) = refl

module _ {Value : Type 0} (db : Engine Value) {F : Type 0} where
  -- Setting a value either fails, because it cannot be printed, and changes nothing; or succeeds, and
  -- then reading that key returns what its printed text is read as, and reading any other key
  -- returns what it did before.
  pub get_setting-set_setting :
      (key : Text) (value : Value) (j : Text) (store : EventStore F)
      → ((message : Text) × (db.value_json.to_string value ≡ err message)
          × (set_setting db key value store ≡ (err (serialization message), store)))
        ⊎ ((text : Text) × (after : EventStore F) × (db.value_json.to_string value ≡ ok text)
            × (set_setting db key value store ≡ (ok tt, after))
            × (get_setting db j after ≡ (
                if text_eq key j
                then found (db.value_json.from_str text)
                else get_setting db j store)))
  unfolding get_setting set_setting map_err
  get_setting-set_setting key value j store = elim (Result-cases (db.value_json.to_string value)) [
    | inr (message, failed) ↦ inl (message, failed, rw failed refl)
    | inl (t, written) ↦ inr (
      t,
      record store { settings = upsert_setting key t store.settings },
      written,
      rw written refl,
      rw (setting_text-upsert_setting key t store.settings j) (elim (Bool-cases (text_eq key j)) [
        | inl e ↦ rw e (read_as (db.value_json.from_str t))
        | inr e ↦ rw e refl
      ]),
    )
  ]

  -- The same when values are read back as they were printed.
  pub get_setting-set_value :
      (key : Text) (value : Value) (j : Text) (store : EventStore F)
      → ((e : EventStoreError) × (set_setting db key value store ≡ (err e, store)))
        ⊎ ((after : EventStore F) × (set_setting db key value store ≡ (ok tt, after))
            × (get_setting db j after
                ≡ (if text_eq key j then ok (some value) else get_setting db j store)))
  get_setting-set_value key value j store = elim (get_setting-set_setting key value j store) [
    | inl (message, failed, e) ↦ inl (serialization message, e)
    | inr (t, after, written, e, got) ↦
        inr (after, e, rw (db.value_json.read-print value t written) at got)
  ]

  -- Once the row of the privacy state is there, the state that was set is got.
  pub get_privacy_state-set_privacy_state :
      (state : PrivacyState) (store : EventStore F) (row : PrivacyRow)
      → store.privacy_state ≡ some row
      → get_privacy_state db (set_privacy_state db state store).1 ≡ ok state
  unfolding get_privacy_state set_privacy_state map_err
  get_privacy_state-set_privacy_state state store row present =
      rw
        (
          present,
          level_back state.current_level,
          from-to_rfc3339 db state.updated_at,
          bool_back state.observation_active,
        )
        refl

module _ {Value : Type 0} (db : Engine Value) {F : Type 0} where
  -- The privacy state is read from its row alone.
  pub get_privacy_state_row :
      (a b : EventStore F)
      → a.privacy_state ≡ b.privacy_state
      → get_privacy_state db a ≡ get_privacy_state db b
  unfolding get_privacy_state
  get_privacy_state_row a b e = ap (privacy_of db) e

  -- A privacy state that can be read has a row.
  pub get_privacy_state-ok :
      (store : EventStore F) (state : PrivacyState)
      → get_privacy_state db store ≡ ok state
      → (row : PrivacyRow) × (store.privacy_state ≡ some row)
  unfolding get_privacy_state privacy_of
  get_privacy_state-ok store state h = elim (Option-cases store.privacy_state) [
    | inr present ↦ present
    | inl missing ↦ absurd (cc (rw missing at h))
  ]

  pub get_privacy_state-none :
      (store : EventStore F) → store.privacy_state ≡ none → get_privacy_state db store ≡ err no_rows
  unfolding get_privacy_state privacy_of
  get_privacy_state-none store missing = rw missing refl

  -- An enterprise policy is written to its own table.
  pub set_enterprise_policy_kept :
      (policy : EnterprisePolicy) (now : ℕ) (store : EventStore F)
      → ((set_enterprise_policy db policy now store).1.privacy_state ≡ store.privacy_state)
        × ((set_enterprise_policy db policy now store).1.settings ≡ store.settings)
  unfolding set_enterprise_policy write_policy
  set_enterprise_policy_kept policy now store =
      elim (Result-cases (allowlist_json db policy.provider_allowlist)) [
        | inl (t, e) ↦ rw e (refl, refl)
        | inr (f, e) ↦ rw e (refl, refl)
      ]

  -- A setting is read from the table of settings alone.
  pub get_setting_row :
      (key : Text) (a b : EventStore F)
      → a.settings ≡ b.settings
      → get_setting db key a ≡ get_setting db key b
  unfolding get_setting
  get_setting_row key a b e = ap (λ rows. parsed_setting db (setting_text rows key)) e
