-- ===== src/Store.antt =====
-- crates/event-store/src: the tables of schema.sql as lists of rows, as store.rs uses them. A
-- statement of SQL is a function on the rows; input and output errors of the file are left out.
pub mod Labels
pub mod Rows
pub mod Events
pub mod State
pub mod Providers
pub mod Patterns
pub mod Embeddings
pub mod Erase
pub mod Paired
mod Tests
use hidden_steps.Prelude.{
  Bool, List, Option, Result, Text, [], err, false, none, ok, some, take, text_le, true, ℕ, ◌++◌,
  ◌+◌, ◌/◌, ◌<◌, ◌>>=◌, ◌∷◌, ◌≡◌,
}
use hidden_steps.HashMap.{Reordered}
use hidden_steps.Domain.Privacy.{PrivacyLevelError}
use hidden_steps.Domain.Pattern.{Alternative, LlmProviderConfig}

-- `serde_json` at one type: printing may fail, and what was printed is read back.
pub record Serde (A : Type 0) : Type 0 where
  pub to_string : A → Result Text Text
  pub from_str : Text → Result A Text
  pub read-print : (a : A) (t : Text) → to_string a ≡ ok t → from_str t ≡ ok a

-- What the store takes from `time`, `serde_json` and SQLite: RFC 3339 texts that are read back and
-- whose bytes are in the order of time between points in time of different seconds, the
-- printing of values, and an `ORDER BY` that puts the rows in another order.
pub record Engine (Value : Type 0) : Type 1 where
  pub to_rfc3339 : ℕ → Text
  pub rfc3339_parse : Text → Result ℕ Text
  pub parse-to_rfc3339 : (t : ℕ) → rfc3339_parse (to_rfc3339 t) ≡ ok t
  pub to_rfc3339-order :
      (s t : ℕ)
      → s / 1000000000 < t / 1000000000
      → (text_le (to_rfc3339 s) (to_rfc3339 t) ≡ true)
        × (text_le (to_rfc3339 t) (to_rfc3339 s) ≡ false)
  pub value_json : Serde Value
  pub texts_json : Serde (List Text)
  pub alternatives_json : Serde (List Alternative)
  pub order_by : {A : Type 0} → (A → Text) → List A → List A
  pub order_by_desc : {A : Type 0} → (A → Text) → List A → List A
  pub order_by-Reordered :
      {A : Type 0} (key : A → Text) (rows : List A) → Reordered rows (order_by key rows)
  pub order_by_desc-Reordered :
      {A : Type 0} (key : A → Text) (rows : List A) → Reordered rows (order_by_desc key rows)

-- `EventStoreError`: the constructors from `conversion` to `no_rows` are its database errors, those
-- from `unknown_label` on its messages for a value that is not valid.
pub data EventStoreError : Type 0 where
  conversion : EventStoreError → EventStoreError
  foreign_key_failed check_failed no_rows : EventStoreError
  io_failed : EventStoreError
  invalid_key_or_corrupt_file : EventStoreError
  serialization timestamp : Text → EventStoreError
  unknown_label : (kind value : Text) → EventStoreError
  invalid_level : PrivacyLevelError → EventStoreError
  not_registered table_not_allowed : Text → EventStoreError

-- A table with `INTEGER PRIMARY KEY AUTOINCREMENT`: the next id, and the rows.
pub record Table (Row : Type 0) : Type 0 where
  pub next_id : ℕ
  pub rows : List Row

pub record PrivacyRow : Type 0 where
  pub current_level : ℕ
  pub consented_manifest_version : ℕ
  pub observation_active : ℕ
  pub updated_at : Text

pub record PolicyRow : Type 0 where
  pub policy_source : Option Text
  pub privacy_level_floor : Option ℕ
  pub provider_allowlist_json : Option Text
  pub applied_at : Text

pub record EventRow : Type 0 where
  pub id : ℕ
  pub occurred_at : Text
  pub source_id : Text
  pub signal_type : Text
  pub privacy_level_at_capture : ℕ
  pub summary_json : Text
  pub is_deep_mode : ℕ
  pub ttl_expires_at : Option Text

pub record AuditRow : Type 0 where
  pub id : ℕ
  pub occurred_at : Text
  pub actor : Text
  pub action_type : Text
  pub details_json : Text

pub record PatternRow (F : Type 0) : Type 0 where
  pub id : ℕ
  pub first_seen_at : Text
  pub last_seen_at : Text
  pub occurrence_count : ℕ
  pub estimated_minutes_per_occurrence : Option F
  pub sequence_signature_json : Text
  pub status : Text

pub record RecommendationRow (F : Type 0) : Type 0 where
  pub id : ℕ
  pub pattern_id : ℕ
  pub created_at : Text
  pub title : Text
  pub category : Text
  pub why : Text
  pub confidence : F
  pub estimated_time_saved_minutes : F
  pub difficulty : Text
  pub maintenance_burden : Text
  pub privacy_implications : Text
  pub implementation_effort : Text
  pub alternatives_json : Text
  pub assumptions_json : Text
  pub ignored_information_json : Text
  pub generating_provider : Text
  pub status : Text
  pub dismissal_reason : Option Text

pub record EmbeddingRow : Type 0 where
  pub pattern_id : ℕ
  pub embedding : List ℕ
  pub dimensions : ℕ

-- The open store. No statement reads or writes the three tables of texts but the one that clears
-- every table.
pub record EventStore (F : Type 0) : Type 0 where
  pub schema_version : List (ℕ × Text)
  pub privacy_state : Option PrivacyRow
  pub enterprise_policy : Option PolicyRow
  pub event_summaries : Table EventRow
  pub audit_log : Table AuditRow
  pub patterns : Table (PatternRow F)
  pub pattern_events : List (ℕ × ℕ)
  pub pattern_embeddings : List EmbeddingRow
  pub recommendations : Table (RecommendationRow F)
  pub llm_providers : List LlmProviderConfig
  pub settings : List (Text × Text)
  pub observation_sources : List Text
  pub workflow_nodes : List Text
  pub workflow_edges : List Text

unfoldable pub of_bool : Bool → ℕ
of_bool true = 1
of_bool false = 0

-- The rows of a query, converted one after the other up to the first that fails.
unfoldable pub collect :
    {A B : Type 0} → (A → Result B EventStoreError) → List A → Result (List B) EventStoreError
collect f [] = ok []
collect f (x ∷ xs) = do y ← f x; ys ← collect f xs; ok (y ∷ ys)

-- `map_err(f)`
unfoldable pub map_err : {A E G : Type 0} → (E → G) → Result A E → Result A G
map_err f (ok a) = ok a
map_err f (err e) = err (f e)

-- `LIMIT ?1`, where a negative number, `none` here, is no limit.
unfoldable pub limited : {A : Type 0} → Option ℕ → List A → List A
limited none rows = rows
limited (some n) rows = take n rows

-- An `INSERT` of a row, which fails before the statement when a column cannot be printed.
unfoldable pub append_row :
    {Row : Type 0} → Table Row → Result Row EventStoreError → Result ℕ EventStoreError × Table Row
append_row table (ok row) =
    (ok table.next_id, record { next_id = table.next_id + 1; rows = table.rows ++ row ∷ [] })
append_row table (err e) = (err e, table)
