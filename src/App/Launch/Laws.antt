-- ===== src/App/Launch/Laws.antt =====
-- apps/desktop/src-tauri/src/main.rs: what a launch keeps of the store.
use hidden_steps.Prelude.{
  Option, Result, Result-cases, Text, [], inl, inr, none, ok, refl, some, ℕ, ◌∙◌, ◌≡◌,
}
use hidden_steps.Domain.Privacy.{as_u8, initial}
use hidden_steps.Json.{Json}
use hidden_steps.Policy.{EnterprisePolicy, parse}
use hidden_steps.Store.{Engine, EventStore, of_bool}
use hidden_steps.Store.State.{
  get_privacy_state, max_version, migrate, privacy_row, set_privacy_state,
}
use hidden_steps.Store.State.Laws.{
  get_privacy_state-set_privacy_state, get_privacy_state_row, set_enterprise_policy_kept,
}
use hidden_steps.App.Launch.{launch, read_policy, resolve_enterprise_policy}

module _ (j : Json) (db : Engine j.Value) {F : Type 0} {E : Type 0}
    (from_str : Text → Result EnterprisePolicy E) (now : ℕ) where
  -- The policy is written to its own table.
  policy_kept :
      (policy_file : Option Text) (store : EventStore F)
      → ((resolve_enterprise_policy j db from_str now policy_file store).1.privacy_state
          ≡ store.privacy_state)
        × ((resolve_enterprise_policy j db from_str now policy_file store).1.settings
            ≡ store.settings)
  unfolding resolve_enterprise_policy read_policy
  policy_kept none store = (refl, refl)
  policy_kept (some contents) store = elim (Result-cases (parse from_str contents)) [
    | inr (e, bad) ↦ rw bad (refl, refl)
    | inl (policy, good) ↦ rw good (set_enterprise_policy_kept db policy now store)
  ]

  pub launch-kept :
      (policy_file : Option Text) (opened : EventStore F)
      → ((launch j db from_str now policy_file opened).store.privacy_state
          ≡ (migrate db now opened).privacy_state)
        × ((launch j db from_str now policy_file opened).store.settings
            ≡ (migrate db now opened).settings)
  unfolding launch
  launch-kept policy_file opened = policy_kept policy_file (migrate db now opened)

  -- The first launch with a store starts from the initial privacy state.
  pub launch-initial :
      (policy_file : Option Text) (opened : EventStore F)
      → opened.schema_version ≡ []
      → get_privacy_state db (launch j db from_str now policy_file opened).store ≡ ok (initial now)
  unfolding migrate max_version set_privacy_state privacy_row initial as_u8 of_bool
  launch-initial policy_file opened fresh =
      let launched = (launch j db from_str now policy_file opened).store in
      let row = privacy_row db (initial now) in
      let with_row = record opened { privacy_state = some row } in
      get_privacy_state_row db launched (set_privacy_state db (initial now) with_row).1
        ((launch-kept policy_file opened).0 ∙ (rw fresh refl))
      ∙ get_privacy_state-set_privacy_state db (initial now) with_row row refl
