-- ===== src/App/Observation/Tests.antt =====
-- A turn of the observation loop on a concrete store.
use hidden_steps.Prelude.{
  List, Result, Text, [], codes, err, false, none, ok, refl, some, ℕ, ◌∷◌, ◌≡◌,
}
use hidden_steps.Samples.{
  Node, empty_store, member, no_more, object_node, one_code, print_name, text_node, tree_json,
}
use hidden_steps.Domain.Privacy.{from_u8, level_gt, workflow_metadata}
use hidden_steps.Store.State.{get_privacy_state, privacy_row}
use hidden_steps.App.Observation.Guarded.{Guarded, turn-Guarded}
use hidden_steps.Pipeline.Process.{EventPipeline, extracted, new_pipeline, summary_made}
use hidden_steps.Redaction.Engine.{clean}
use hidden_steps.Store.Labels.{signal_type_to_str}
use hidden_steps.Store.Paired.{no_pair}
use hidden_steps.Store.Events.Refines.{EventLog, Represents}
use hidden_steps.App.Observation.{goes_on, turn}
use hidden_steps.Domain.Signal.{
  CapturedPayload, CapturedSignal, EventSummary, SignalType, new_summary,
}
use hidden_steps.Store.{EventStore, of_bool}
use hidden_steps.Pipeline.Classify.{classified_type, classify, minimum_level_for}
use hidden_steps.App.Tests.{observing}

abbrev pub observing_store : EventStore ℕ
observing_store = record empty_store { privacy_state = some (privacy_row one_code observing) }

-- One window title, and a source that fails.
abbrev polls : List (Result (List (CapturedSignal × ℕ)) Text)
polls =
    err (codes "lost")
    ∷ ok (
        (
          record {
            source_id = codes "x11";
            payload = CapturedPayload.window_title (codes "Inbox");
          },
          9,
        )
        ∷ [])
    ∷ []

abbrev pipeline : EventPipeline
pipeline = new_pipeline (λ t. some (clean t))

abbrev pub captured : EventSummary Node
captured = record {
  id = some 1;
  occurred_at = 9;
  source_id = codes "x11";
  signal_type = SignalType.window_title;
  privacy_level_at_capture = workflow_metadata;
  summary = object_node (member (codes "title") (text_node (codes "Inbox")) no_more);
  is_deep_mode = false;
  ttl_expires_at = none;
}

abbrev after_turn : EventStore ℕ
after_turn = record observing_store {
  event_summaries = record {
    next_id = 2;
    rows =
        record {
          id = 1;
          occurred_at = 9 ∷ [];
          source_id = codes "x11";
          signal_type = codes "window_title";
          privacy_level_at_capture = 2;
          summary_json = 3 ∷ print_name (codes "title") (codes "Inbox");
          is_deep_mode = 0;
          ttl_expires_at = none;
        }
        ∷ [];
  };
}

abbrev empty_log : EventLog Node
empty_log = record { next = 1; events = [] }

observing-Represents : Represents one_code observing_store empty_log
unfolding Represents
observing-Represents = (refl, no_pair)

one_turn :
    turn tree_json one_code pipeline polls observing_store
    ≡ some (goes_on after_turn (captured ∷ []))
unfolding turn get_privacy_state from_u8 privacy_row of_bool level_gt minimum_level_for
    classified_type classify extracted new_pipeline summary_made new_summary signal_type_to_str
one_turn = refl

turn-Guarded_example :
    Guarded tree_json one_code pipeline polls observing_store after_turn empty_log (captured ∷ [])
turn-Guarded_example =
    turn-Guarded tree_json one_code pipeline polls observing_store after_turn empty_log
      (captured ∷ []) observing-Represents one_turn
