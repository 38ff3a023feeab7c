-- ===== src/Store/Tests.antt =====
-- A store with one event and one provider, printed by the samples.
use mathlib.Core.List.{Memᴰ}
use hidden_steps.Prelude.{
  All, Bool, List, Text, [], codes, err, false, if◌then◌else◌, map, none, ok, refl, some, take,
  text_eq, true, ℕ, ◌∷◌, ◌≡◌, ◌⊎◌,
}
use hidden_steps.Samples.{Node, empty_store, one_code, text_node, whole}
use hidden_steps.HashMap.{Reordered}
use hidden_steps.Domain.Privacy.{maximum_assistance}
use hidden_steps.Domain.Signal.{EventSummary, SignalType}
use hidden_steps.Domain.Pattern.{LlmProviderConfig}
use hidden_steps.Store.{EventStore, append_row, io_failed, map_err, not_registered, serialization}
use hidden_steps.Store.Rows.{event_row}
use hidden_steps.Store.Paired.{no_pair, pair}
use hidden_steps.Store.State.{get_setting, set_setting}
use hidden_steps.Store.State.Laws.{found, get_setting-set_setting}
use hidden_steps.Store.Events.{delete_expired_events, insert_event_summary, list_recent_events}
use hidden_steps.Store.Events.Refines.{
  EventChange, EventLog, Represents, deleted, expired, inserted, list_recent_events-refines,
  log_changes, store_changes,
}
use hidden_steps.Store.Events.Expiry.{MayBeOver, NotOverdue, delete_expired_events-listed}
use hidden_steps.Store.Providers.{get_active_llm_provider, registered, set_active_llm_provider}
use hidden_steps.Store.Providers.Active.{OnlyActive, set_active_llm_provider-get}
use hidden_steps.Store.Patterns.Links.{
  Intact, LinksKept, after_change, change-Intact, events_deleted,
}
use hidden_steps.Store.Patterns.{event_exists, pattern_exists}
use hidden_steps.Store.Embeddings.{FourBytes, find_similar_patterns, scored}
use hidden_steps.Store.Embeddings.Laws.{Ranked, find_similar_patterns-Ranked}
use hidden_steps.Store.Erase.{Statement, delete_all_data, vacuum}
use hidden_steps.Store.Erase.Laws.{delete_all_data_atomic, wiped}

abbrev note : EventSummary Node
note = record {
  id = none;
  occurred_at = 5;
  source_id = codes "source";
  signal_type = SignalType.ocr_text;
  privacy_level_at_capture = maximum_assistance;
  summary = text_node (codes "hello");
  is_deep_mode = true;
  ttl_expires_at = some 9000000000;
}

abbrev empty_log : EventLog Node
empty_log = record { next = 1; events = [] }

empty-Represents : Represents one_code empty_store empty_log
unfolding Represents
empty-Represents = (refl, no_pair)

abbrev changed : List (EventChange Node)
changed = inserted note ∷ inserted note ∷ deleted (1 ∷ []) ∷ expired 3000000000 ∷ []

list_recent_events-refines_example :
    (events : List (EventSummary Node)) × (list_recent_events one_code none
        (store_changes one_code changed empty_store)
      ≡ ok events)
    × Reordered (log_changes one_code changed empty_log).events events
list_recent_events-refines_example =
    list_recent_events-refines one_code changed empty_store empty_log empty-Represents

abbrev filled : EventStore ℕ
unfolding insert_event_summary
filled = (insert_event_summary one_code note empty_store).1

abbrev filled_log : EventLog Node
filled_log = record { next = 2; events = record note { id = some 1 } ∷ [] }

filled-Represents : Represents one_code filled filled_log
unfolding Represents insert_event_summary append_row event_row map_err
filled-Represents = (refl, pair (refl, refl) no_pair)

delete_expired_events-listed_example :
    (events : List (EventSummary Node)) × (list_recent_events one_code none
        (delete_expired_events one_code 11000000000 filled).1
      ≡ ok events)
    × All (λ e. Memᴰ e filled_log.events × NotOverdue 11000000000 e.ttl_expires_at) events
    × All (λ e. MayBeOver 11000000000 e.ttl_expires_at ⊎ Memᴰ e events) filled_log.events
delete_expired_events-listed_example =
    delete_expired_events-listed one_code 11000000000 filled filled_log filled-Represents

abbrev model : LlmProviderConfig
model = record {
  id = codes "ollama";
  provider_type = codes "ollama";
  is_local = true;
  model_name = some (codes "m");
  endpoint = none;
  vault_key_ref = none;
  active = false;
}

abbrev with_model : EventStore ℕ
with_model = record empty_store { llm_providers = model ∷ [] }

set_active_llm_provider-get_example :
    ((registered (codes "ollama") with_model.llm_providers ≡ false)
      × (set_active_llm_provider (codes "ollama") with_model
          ≡ (err (not_registered (codes "ollama")), with_model)))
    ⊎ ((after : EventStore ℕ) × (set_active_llm_provider (codes "ollama") with_model
          ≡ (ok tt, after))
        × OnlyActive (codes "ollama") after.llm_providers
        × ((p : LlmProviderConfig) × (get_active_llm_provider after ≡ ok (some p))
            × (p.id ≡ codes "ollama")))
set_active_llm_provider-get_example = set_active_llm_provider-get (codes "ollama") with_model

-- Two events, both linked to a pattern, of which the first is deleted.
abbrev linked_store : EventStore ℕ
unfolding insert_event_summary
linked_store = record (insert_event_summary one_code note filled).1 {
  patterns = record {
    next_id = 2;
    rows =
        record {
          id = 1;
          first_seen_at = [];
          last_seen_at = [];
          occurrence_count = 2;
          estimated_minutes_per_occurrence = none;
          sequence_signature_json = [];
          status = codes "active";
        }
        ∷ [];
  };
  pattern_events = (1, 1) ∷ (1, 2) ∷ [];
}

linked_store-Intact : Intact linked_store
unfolding Intact insert_event_summary pattern_exists event_exists append_row event_row map_err
linked_store-Intact = ((refl, refl), ((refl, refl), tt))

-- The deletion keeps the other link.
one_link_left :
    (after_change one_code (events_deleted (1 ∷ [])) linked_store).pattern_events ≡ (1, 2) ∷ []
unfolding after_change insert_event_summary append_row event_row map_err
one_link_left = refl

change-Intact_example :
    Intact (after_change one_code (events_deleted (1 ∷ [])) linked_store)
    × LinksKept linked_store (after_change one_code (events_deleted (1 ∷ [])) linked_store)
change-Intact_example =
    change-Intact one_code (events_deleted (1 ∷ [])) linked_store linked_store-Intact

abbrev bytes : FourBytes ℕ
bytes = record {
  to_le_bytes = λ n. (n, 0, 0, 0);
  from_le_bytes = λ b. b.0;
  from_le_bytes-to_le_bytes = λ n. refl;
}

abbrev with_embedding : EventStore ℕ
with_embedding = record empty_store {
  pattern_embeddings =
      record { pattern_id = 1; embedding = 4 ∷ 0 ∷ 0 ∷ 0 ∷ []; dimensions = 1 } ∷ [];
}

find_similar_patterns-Ranked_example :
    (ranking : List (ℕ × ℕ)) × (find_similar_patterns whole bytes (3 ∷ []) 2 with_embedding
      ≡ ok (take 2 ranking))
    × Ranked whole ranking
    × Reordered (map (scored whole bytes (3 ∷ [])) with_embedding.pattern_embeddings) ranking
find_similar_patterns-Ranked_example =
    find_similar_patterns-Ranked whole bytes (3 ∷ []) 2 with_embedding

abbrev vacuum_fails : Statement → Bool
vacuum_fails vacuum = true
vacuum_fails _ = false

delete_all_data_atomic_example :
    ((s : Statement) × (vacuum_fails s ≡ true)
      × (delete_all_data one_code vacuum_fails 7 filled ≡ (err io_failed, filled)))
    ⊎ (delete_all_data one_code vacuum_fails 7 filled
        ≡ (if vacuum_fails vacuum then err io_failed else ok tt, wiped one_code 7 filled))
delete_all_data_atomic_example = delete_all_data_atomic one_code vacuum_fails 7 filled

get_setting-set_setting_example :
    ((message : Text) × (one_code.value_json.to_string (text_node (codes "v")) ≡ err message)
      × (set_setting one_code (codes "k") (text_node (codes "v")) filled
          ≡ (err (serialization message), filled)))
    ⊎ ((text : Text) × (after : EventStore ℕ) × (one_code.value_json.to_string
            (text_node (codes "v"))
          ≡ ok text)
        × (set_setting one_code (codes "k") (text_node (codes "v")) filled ≡ (ok tt, after))
        × (get_setting one_code (codes "k") after ≡ (
            if text_eq (codes "k") (codes "k")
            then found (one_code.value_json.from_str text)
            else get_setting one_code (codes "k") filled)))
get_setting-set_setting_example =
    get_setting-set_setting one_code (codes "k") (text_node (codes "v")) (codes "k") filled
